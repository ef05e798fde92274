-- ===== src/Core/Config/RoundTrip.antt =====
-- core/src/config.rs: a configuration that is written is read back.
use Prim.Native.Nat.{◌^◌}
use trsync.Base.{
  ◌<◌, Bool, true, false, Option, none, some, List, [], ◌∷◌, map, Outcome, ok, ◌≡◌, refl, ◌∙◌, All,
  ◌==◌, nat_eq, list_eq,
}
use trsync.Base.Lines.{Text, codes, join}
use trsync.Core.Config.{
  Ini, Instance, ManagerConfig, bool_to_string, server, password_of, read_instance, read_instances,
  from_ini, write_server, to_ini, with_icons,
}
use trsync.Core.Config.Written.{
  KeepsKeys, same, strbool-bool_to_string, Written, get-write_instances, section-write_instances,
  write_instances-Written, DistinctNames, server-Differs,
}
use trsync.Core.Config.Items.{IsItem, listed-join, printed-IsItem, parse_all-map}
use trsync.Ignore.Decimal.{print}

-- A configuration that a file can hold: names with no comma that differ, ids of 32 bits, and passwords that
-- are in the key ring.
abbrev pub IsInstance : (Text → Outcome (Unit {0}) Text) → Instance → Type 0
IsInstance get_password i =
    IsItem i.name
    × All (λ id. id < 2 ^ 32) i.workspaces_ids
    × (get_password i.address ≡ ok i.password)

module _ (I : Ini) (L : KeepsKeys I) (get_password : Text → Outcome (Unit {0}) Text)
    (default_folder : Text) where
  read_instance-Written :
      (conf : I.Conf) (allow : Bool) (i : Instance)
      → IsInstance get_password i
      → Written I L conf i
      → read_instance I get_password default_folder conf allow i.name ≡ ok (some i)
  unfolding read_instance password_of
  read_instance-Written conf allow i (item, ids, password) w =
      rw
        (
          read_instance,
          w.exists,
          w.address_set,
          w.username_set,
          w.unsecure_set,
          w.ids_set,
          listed-join (map print i.workspaces_ids) (printed-IsItem i.workspaces_ids),
          parse_all-map i.workspaces_ids ids,
          strbool-bool_to_string i.unsecure,
          password_of,
          password,
        )
        refl

  read_instances-Written :
      (conf : I.Conf) (allow : Bool) (is : List Instance)
      → All (IsInstance get_password) is
      → All (Written I L conf) is
      → read_instances I get_password default_folder conf allow (map (λ (i : Instance). i.name) is)
        ≡ ok is
  unfolding read_instances
  read_instances-Written conf allow [] v w = refl
  read_instances-Written conf allow (i ∷ is) (v, vs) (w, ws) =
      rw
        (
          read_instances,
          read_instance-Written conf allow i v w,
          read_instances-Written conf allow is vs ws,
        )
        refl

  names-IsItem :
      (is : List Instance)
      → All (IsInstance get_password) is
      → All IsItem (map (λ (i : Instance). i.name) is)
  names-IsItem [] h = tt
  names-IsItem (i ∷ is) ((item, _, _), h) = (item, names-IsItem is h)

  get-to_ini :
      (config : ManagerConfig) (k : Text)
      → I.get (to_ini I config) server k ≡ I.get (write_server I config) server k
  unfolding to_ini
  get-to_ini config k =
      get-write_instances I L config.instances (write_server I config) server k
        (server-Differs config.instances)

  with_icons-other :
      (icons : Option Text) (c : I.Conf) (k : Text)
      → (k == codes "icons_path") ≡ false
      → I.get (with_icons I icons c) server k ≡ I.get c server k
  with_icons-other none c k n = refl
  with_icons-other (some path) c k n = simp (L.get-set, n)

  with_icons-icons :
      (icons : Option Text) (c : I.Conf)
      → I.get c server (codes "icons_path") ≡ none
      → I.get (with_icons I icons c) server (codes "icons_path") ≡ icons
  with_icons-icons none c h = h
  with_icons-icons (some path) c h = simp (L.get-set, same)

  with_icons-section :
      (icons : Option Text) (c : I.Conf)
      → I.section c server ≡ true
      → I.section (with_icons I icons c) server ≡ true
  with_icons-section none c h = h
  with_icons-section (some path) c h = simp (L.section-set, same)

  record ServerWritten (conf : I.Conf) (config : ManagerConfig) : Type 0 where
    pub exists : I.section conf server ≡ true
    pub instances_set :
        I.get conf server (codes "instances")
        ≡ some (join b',' (map (λ (i : Instance). i.name) config.instances))
    pub folder_set : I.get conf server (codes "local_folder") ≡ some config.local_folder
    pub icons_set : I.get conf server (codes "icons_path") ≡ config.icons_path
    pub confirm_set :
        I.get conf server (codes "confirm_startup_sync")
        ≡ some (bool_to_string config.confirm_startup_sync)
    pub popup_set :
        I.get conf server (codes "popup_confirm_startup_sync")
        ≡ some (bool_to_string config.popup_confirm_startup_sync)

  write_server-ServerWritten :
      (config : ManagerConfig) → ServerWritten (write_server I config) config
  unfolding write_server list_eq nat_eq
  write_server-ServerWritten config = record {
    exists = with_icons-section config.icons_path _ (simp (L.section-set));
    instances_set =
        with_icons-other config.icons_path _ (codes "instances") refl ∙ simp (L.get-set);
    folder_set =
        with_icons-other config.icons_path _ (codes "local_folder") refl ∙ simp (L.get-set);
    icons_set = with_icons-icons config.icons_path _ (simp (L.get-set, L.get-new));
    confirm_set =
        with_icons-other config.icons_path _ (codes "confirm_startup_sync") refl ∙ simp (L.get-set);
    popup_set =
        with_icons-other config.icons_path _ (codes "popup_confirm_startup_sync") refl
        ∙ simp (L.get-set);
  }

  section-to_ini :
      (config : ManagerConfig)
      → I.section (to_ini I config) server ≡ I.section (write_server I config) server
  unfolding to_ini
  section-to_ini config =
      section-write_instances I L config.instances (write_server I config) server
        (server-Differs config.instances)

  to_ini-Written :
      (config : ManagerConfig)
      → DistinctNames config.instances
      → All (Written I L (to_ini I config)) config.instances
  unfolding to_ini
  to_ini-Written config d = write_instances-Written I L config.instances (write_server I config) d

  to_ini-ServerWritten : (config : ManagerConfig) → ServerWritten (to_ini I config) config
  to_ini-ServerWritten config =
      let w = write_server-ServerWritten config in
      record {
        exists = section-to_ini config ∙ w.exists;
        instances_set = get-to_ini config (codes "instances") ∙ w.instances_set;
        folder_set = get-to_ini config (codes "local_folder") ∙ w.folder_set;
        icons_set = get-to_ini config (codes "icons_path") ∙ w.icons_set;
        confirm_set = get-to_ini config (codes "confirm_startup_sync") ∙ w.confirm_set;
        popup_set = get-to_ini config (codes "popup_confirm_startup_sync") ∙ w.popup_set;
      }

  -- A configuration is read back as it was written, where the names of its instances hold no comma, are not
  -- blank and differ, the ids of workspaces have 32 bits, and the passwords are in the key ring.
  pub from_ini-to_ini :
      (config : ManagerConfig)
      → All (IsInstance get_password) config.instances
      → DistinctNames config.instances
      → from_ini I get_password default_folder (to_ini I config) config.allow_raw_passwords
        ≡ ok config
  unfolding from_ini
  from_ini-to_ini config v d =
      let w = to_ini-ServerWritten config in
      rw
        (
          from_ini,
          w.exists,
          w.instances_set,
          w.folder_set,
          w.icons_set,
          w.confirm_set,
          w.popup_set,
          listed-join (map (λ (i : Instance). i.name) config.instances)
              (names-IsItem config.instances v),
          read_instances-Written (to_ini I config) config.allow_raw_passwords config.instances v
              (to_ini-Written config d),
          strbool-bool_to_string config.confirm_startup_sync,
          strbool-bool_to_string config.popup_confirm_startup_sync,
        )
        refl
