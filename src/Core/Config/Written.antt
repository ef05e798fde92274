-- ===== src/Core/Config/Written.antt =====
-- core/src/config.rs: what is in the sections that are written.
use trsync.Base.{
  Bool, true, false, ◌&&◌, none, some, List, [], ◌∷◌, map, ◌≡◌, refl, ◌∙◌, ap, arith, All, ◌==◌,
  nat_eq, list_eq, if◌then◌else◌,
}
use trsync.Base.Lines.{Text, codes, join, drop}
use trsync.Core.Config.{
  Ini, Instance, strbool, bool_to_string, server, section_of, write_instance, write_instances,
}
use trsync.Ignore.Decimal.{print}

-- What setting a key does to the sections and keys.
pub record KeepsKeys (I : Ini) : Type 0 where
  pub section-set :
      (s t k v : Text) (c : I.Conf)
      → I.section (I.set t k v c) s ≡ (if s == t then true else I.section c s)
  pub get-set :
      (s t j k v : Text) (c : I.Conf)
      → I.get (I.set t k v c) s j ≡ (if j == k && s == t then some v else I.get c s j)
  pub get-new : (s k : Text) → I.get I.new s k ≡ none

pub same : (s : Text) → (s == s) ≡ true
same s = ground arith

and_false : (b : Bool) → (b && false) ≡ false
and_false true = refl
and_false false = refl

pub strbool-bool_to_string : (b : Bool) → strbool (bool_to_string b) ≡ b
unfolding strbool bool_to_string list_eq nat_eq
strbool-bool_to_string true = refl
strbool-bool_to_string false = refl

module _ (I : Ini) (L : KeepsKeys I) where
  -- What is in the section of an instance.
  pub record Written (conf : I.Conf) (i : Instance) : Type 0 where
    pub exists : I.section conf (section_of i.name) ≡ true
    pub address_set : I.get conf (section_of i.name) (codes "address") ≡ some i.address
    pub username_set : I.get conf (section_of i.name) (codes "username") ≡ some i.username
    pub unsecure_set :
        I.get conf (section_of i.name) (codes "unsecure") ≡ some (bool_to_string i.unsecure)
    pub ids_set :
        I.get conf (section_of i.name) (codes "workspaces_ids")
        ≡ some (join b',' (map print i.workspaces_ids))

  write_instance-Written : (i : Instance) (c : I.Conf) → Written (write_instance I i c) i
  unfolding write_instance list_eq nat_eq
  write_instance-Written i c = record {
    exists = simp (L.section-set, same);
    address_set = simp (L.get-set, same);
    username_set = simp (L.get-set, same);
    unsecure_set = simp (L.get-set, same);
    ids_set = simp (L.get-set, same);
  }

  get-write_instance :
      (i : Instance) (c : I.Conf) (s k : Text)
      → (s == section_of i.name) ≡ false
      → I.get (write_instance I i c) s k ≡ I.get c s k
  unfolding write_instance
  get-write_instance i c s k n = simp (L.get-set, n, and_false)

  section-write_instance :
      (i : Instance) (c : I.Conf) (s : Text)
      → (s == section_of i.name) ≡ false
      → I.section (write_instance I i c) s ≡ I.section c s
  unfolding write_instance
  section-write_instance i c s n = simp (L.section-set, n)

abbrev pub Differs : Text → List Instance → Type 0
Differs s = All (λ i. (s == section_of i.name) ≡ false)

module _ (I : Ini) (L : KeepsKeys I) where
  pub get-write_instances :
      (is : List Instance) (c : I.Conf) (s k : Text)
      → Differs s is
      → I.get (write_instances I is c) s k ≡ I.get c s k
  unfolding write_instances
  get-write_instances [] c s k d = refl
  get-write_instances (i ∷ is) c s k (n, d) =
      get-write_instances is (write_instance I i c) s k d ∙ get-write_instance I L i c s k n

  pub section-write_instances :
      (is : List Instance) (c : I.Conf) (s : Text)
      → Differs s is
      → I.section (write_instances I is c) s ≡ I.section c s
  unfolding write_instances
  section-write_instances [] c s d = refl
  section-write_instances (i ∷ is) c s (n, d) =
      section-write_instances is (write_instance I i c) s d ∙ section-write_instance I L i c s n

  Written-write_instances :
      (is : List Instance) (c : I.Conf) (i : Instance)
      → Differs (section_of i.name) is
      → Written I L c i
      → Written I L (write_instances I is c) i
  Written-write_instances is c i d w = record {
    exists = section-write_instances is c (section_of i.name) d ∙ w.exists;
    address_set = get-write_instances is c (section_of i.name) (codes "address") d ∙ w.address_set;
    username_set =
        get-write_instances is c (section_of i.name) (codes "username") d ∙ w.username_set;
    unsecure_set =
        get-write_instances is c (section_of i.name) (codes "unsecure") d ∙ w.unsecure_set;
    ids_set = get-write_instances is c (section_of i.name) (codes "workspaces_ids") d ∙ w.ids_set;
  }

-- No two instances have the same name.
abbrev pub DistinctNames : List Instance → Type 0
DistinctNames [] = Unit
DistinctNames (i ∷ is) = All (λ j. (i.name == j.name) ≡ false) is × DistinctNames is

section_of-injective : (a b : Text) → section_of a ≡ section_of b → a ≡ b
unfolding section_of drop
section_of-injective a b h = ap (drop 9) h

section_of-differs : (a b : Text) → (a == b) ≡ false → (section_of a == section_of b) ≡ false
section_of-differs a b n = elim (list_eq.dec (section_of a) (section_of b)) [
  | yes e ↦ absurd (ground (arith, section_of-injective a b e))
  | no d ↦ ground arith
]

pub server-Differs : (is : List Instance) → Differs server is
unfolding section_of list_eq nat_eq
server-Differs [] = tt
server-Differs (i ∷ is) = (refl, server-Differs is)

names-Differs :
    (a : Text) (is : List Instance)
    → All (λ (j : Instance). (a == j.name) ≡ false) is
    → Differs (section_of a) is
names-Differs a [] h = tt
names-Differs a (j ∷ is) (n, h) = (section_of-differs a j.name n, names-Differs a is h)

module _ (I : Ini) (L : KeepsKeys I) where
  pub write_instances-Written :
      (is : List Instance) (c : I.Conf)
      → DistinctNames is
      → All (Written I L (write_instances I is c)) is
  unfolding write_instances
  write_instances-Written [] c d = tt
  write_instances-Written (i ∷ is) c (n, d) = (
    Written-write_instances I L is (write_instance I i c) i (names-Differs i.name is n)
        (write_instance-Written I L i c),
    write_instances-Written is (write_instance I i c) d,
  )
