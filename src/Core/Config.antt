-- ===== src/Core/Config.antt =====
-- core/src/config.rs: the configuration of the manager and its file. The file format (`ini`) and the key ring
-- are parameters.
pub mod Written
pub mod Items
pub mod RoundTrip
use trsync.Base.{
  ℕ, Bool, true, false, not, ◌&&◌, ◌||◌, Option, none, some, List, [], ◌∷◌, ◌++◌, map, filter,
  contains, Outcome, ok, err, ◌>>=◌, ok_or, ◌==◌, nat_eq, list_eq, if◌then◌else◌,
}
use trsync.Base.Lines.{Text, codes, ltb, join}
use trsync.Core.Content.{Anyhow, failed}
use trsync.Core.Label.{split}
use trsync.Ignore.Decimal.{parse, print}

-- What the source uses of `Ini`: setting a key of a section, whether there is a section, and its keys.
pub record Ini : Type 1 where
  pub Conf : Type 0
  pub new : Conf
  pub set : Text → Text → Text → Conf → Conf
  pub section : Conf → Text → Bool
  pub get : Conf → Text → Text → Option Text

-- core/src/instance.rs
pub record Instance : Type 0 where
  pub name : Text
  pub address : Text
  pub unsecure : Bool
  pub username : Text
  pub password : Text
  pub workspaces_ids : List ℕ

pub record ManagerConfig : Type 0 where
  pub local_folder : Text
  pub icons_path : Option Text
  pub instances : List Instance
  pub allow_raw_passwords : Bool
  pub confirm_startup_sync : Bool
  pub popup_confirm_startup_sync : Bool

-- `strbool` of core/src/utils.rs
unfoldable pub strbool : Text → Bool
strbool value =
    contains (codes "true" ∷ codes "True" ∷ codes "t" ∷ codes "T" ∷ codes "1" ∷ []) value

-- `bool::to_string`
unfoldable pub bool_to_string : Bool → Text
bool_to_string true = codes "true"
bool_to_string false = codes "false"

unfoldable pub between : ℕ → ℕ → ℕ → Bool
between low high c = not (ltb c low) && not (ltb high c)

-- `char::is_whitespace`
unfoldable pub is_whitespace : ℕ → Bool
unfolding between
is_whitespace c =
    between 9 13 c
    || c == 32
    || c == 133
    || c == 160
    || c == 5760
    || between 8192 8202 c
    || between 8232 8233 c
    || c == 8239
    || c == 8287
    || c == 12288

-- `v.trim().is_empty()`
unfoldable pub is_blank : Text → Bool
unfolding is_whitespace
is_blank [] = true
is_blank (c ∷ s) = is_whitespace c && is_blank s

-- `split(',')` and the filter behind it
unfoldable pub listed : Text → List Text
unfolding split is_blank
listed value = filter (λ v. not (is_blank v)) (split b',' value)

-- `none` where one of them is no number.
unfoldable pub parse_all : List Text → Option (List ℕ)
unfolding parse
parse_all [] = some []
parse_all (v ∷ vs) = elim (parse v) [
  | none ↦ none
  | some id ↦ elim (parse_all vs) [ none ↦ none | some ids ↦ some (id ∷ ids) ]
]

abbrev pub or_else : Text → Option Text → Text
or_else other none = other
or_else other (some v) = v

abbrev pub server : Text
server = codes "server"

unfoldable pub section_of : Text → Text
section_of name = codes "instance." ++ name

-- The instance, or none where it is passed over.
abbrev pub with_password : Instance → Option Text → Option Instance
with_password i none = none
with_password i (some password) = some (record i { password = password })

abbrev pub consed : Option Instance → List Instance → List Instance
consed none rest = rest
consed (some i) rest = i ∷ rest

module _ (I : Ini) (get_password : Text → Outcome (Unit {0}) Text) (default_folder : Text) where
  -- The password from the key ring, or from the file where that is allowed.
  unfoldable pub password_of : I.Conf → Bool → Text → Text → Option Text
  password_of conf allow_raw_passwords section_name address = elim (get_password address) [
    | ok password ↦ some password
    | err _ ↦ if allow_raw_passwords then I.get conf section_name (codes "password") else none
  ]

  -- The body of the loop over the instances.
  unfoldable pub read_instance : I.Conf → Bool → Text → Outcome Anyhow (Option Instance)
  unfolding section_of strbool listed parse_all password_of
  read_instance conf allow_raw_passwords name =
      let section_name = section_of name in
      if I.section conf section_name
      then (do
        address ← ok_or (I.get conf section_name (codes "address")) failed
        username ← ok_or (I.get conf section_name (codes "username")) failed
        workspaces_ids ←
            ok_or
              (parse_all (listed (or_else [] (I.get conf section_name (codes "workspaces_ids")))))
              failed
        ok (
            with_password
              (record {
                name = name;
                address = address;
                unsecure =
                    strbool (or_else (codes "0") (I.get conf section_name (codes "unsecure")));
                username = username;
                password = [];
                workspaces_ids = workspaces_ids;
              })
              (password_of conf allow_raw_passwords section_name address)))
      else err failed

  unfoldable pub read_instances : I.Conf → Bool → List Text → Outcome Anyhow (List Instance)
  unfolding read_instance
  read_instances conf allow_raw_passwords [] = ok []
  read_instances conf allow_raw_passwords (name ∷ names) = do
    i ← read_instance conf allow_raw_passwords name
    rest ← read_instances conf allow_raw_passwords names
    ok (consed i rest)

  -- `from_ini`
  unfoldable pub from_ini : I.Conf → Bool → Outcome Anyhow ManagerConfig
  unfolding strbool listed read_instances
  from_ini conf allow_raw_passwords =
      if I.section conf server
      then (do
        instances ←
            read_instances conf allow_raw_passwords
              (listed (or_else [] (I.get conf server (codes "instances"))))
        ok (record {
          local_folder = or_else default_folder (I.get conf server (codes "local_folder"));
          icons_path = I.get conf server (codes "icons_path");
          instances = instances;
          allow_raw_passwords = allow_raw_passwords;
          confirm_startup_sync =
              strbool (or_else (codes "1") (I.get conf server (codes "confirm_startup_sync")));
          popup_confirm_startup_sync =
              strbool
                (or_else (codes "1") (I.get conf server (codes "popup_confirm_startup_sync")));
        }))
      else err failed

module _ (I : Ini) where
  unfoldable pub write_instance : Instance → I.Conf → I.Conf
  unfolding section_of bool_to_string join print
  write_instance i conf =
      let name = section_of i.name in
      I.set name (codes "workspaces_ids") (join b',' (map print i.workspaces_ids)) (
        I.set name (codes "unsecure") (bool_to_string i.unsecure)
          (I.set name (codes "username") i.username (I.set name (codes "address") i.address conf)))

  unfoldable pub write_instances : List Instance → I.Conf → I.Conf
  unfolding write_instance
  write_instances [] conf = conf
  write_instances (i ∷ is) conf = write_instances is (write_instance i conf)

  abbrev pub with_icons : Option Text → I.Conf → I.Conf
  with_icons none conf = conf
  with_icons (some icons_path) conf = I.set server (codes "icons_path") icons_path conf

  unfoldable pub write_server : ManagerConfig → I.Conf
  unfolding bool_to_string join
  write_server val = with_icons val.icons_path (
      I.set server (codes "popup_confirm_startup_sync")
        (bool_to_string val.popup_confirm_startup_sync)
        (I.set server (codes "confirm_startup_sync") (bool_to_string val.confirm_startup_sync) (
          I.set server (codes "local_folder") val.local_folder (
            I.set server (codes "instances")
              (join b',' (map (λ (i : Instance). i.name) val.instances)) I.new))))

  -- `impl From<ManagerConfig> for Ini`
  unfoldable pub to_ini : ManagerConfig → I.Conf
  unfolding write_server write_instances
  to_ini val = write_instances val.instances (write_server val)
