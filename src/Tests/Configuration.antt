-- ===== src/Tests/Configuration.antt =====
-- The configuration of the manager.
use trsync.Base.{
  ℕ, Bool, true, false, ◌&&◌, ◌≡◌, refl, Option, none, some, List, [], ◌∷◌, ok, Outcome, ◌==◌,
  nat_eq, list_eq, if◌then◌else◌, arith,
}
use trsync.Base.Lines.{Text, codes}
use trsync.Core.Config.{
  Ini, Instance, ManagerConfig, is_blank, is_whitespace, between, from_ini, to_ini,
}
use trsync.Core.Config.Items.{IsItem}
use trsync.Core.Config.RoundTrip.{from_ini-to_ini}
use trsync.Core.Config.Written.{KeepsKeys, DistinctNames}

-- A file as the keys that have been set, the last one first.
record Entry : Type 0 where
  pub section : Text
  pub key : Text
  pub value : Text

get_entry : List Entry → Text → Text → Option Text
get_entry [] s k = none
get_entry (e ∷ entries) s k =
    if k == e.key && s == e.section then some e.value else get_entry entries s k

has_section : List Entry → Text → Bool
has_section [] s = false
has_section (e ∷ entries) s = if s == e.section then true else has_section entries s

abbrev entries : Ini
entries = record {
  Conf = List Entry;
  new = [];
  set = λ s k v c. record { section = s; key = k; value = v } ∷ c;
  section = has_section;
  get = get_entry;
}

entries-KeepsKeys : KeepsKeys entries
unfolding get_entry has_section
entries-KeepsKeys = record {
  section-set = λ s t k v c. refl;
  get-set = λ s t j k v c. refl;
  get-new = λ s k. refl;
}

abbrev instance_of : Text → List ℕ → Instance
instance_of name ids = record {
  name = name;
  address = codes "tracim.example.org";
  unsecure = false;
  username = codes "user";
  password = codes "secret";
  workspaces_ids = ids;
}

abbrev config : ManagerConfig
config = record {
  local_folder = codes "/home/user/Tracim";
  icons_path = none;
  instances = instance_of (codes "a") (1 ∷ 12 ∷ []) ∷ instance_of (codes "b") [] ∷ [];
  allow_raw_passwords = false;
  confirm_startup_sync = true;
  popup_confirm_startup_sync = false;
}

abbrev key_ring : Text → Outcome (Unit {0}) Text
key_ring address = ok (codes "secret")

a_IsItem : IsItem (codes "a")
unfolding is_blank is_whitespace between nat_eq
a_IsItem = ((λ e. omega arith, tt), refl)

b_IsItem : IsItem (codes "b")
unfolding is_blank is_whitespace between nat_eq
b_IsItem = ((λ e. omega arith, tt), refl)

distinct : DistinctNames config.instances
unfolding list_eq nat_eq
distinct = ((refl, tt), (tt, tt))

from_ini-to_ini_example :
    from_ini entries key_ring (codes "/home/user") (to_ini entries config) false ≡ ok config
from_ini-to_ini_example =
    from_ini-to_ini entries entries-KeepsKeys key_ring (codes "/home/user") config
      ((a_IsItem, (omega arith, (omega arith, tt)), refl), ((b_IsItem, tt, refl), tt)) distinct
