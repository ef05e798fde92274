-- ===== src/Tests/Watchers.antt =====
-- The ignore file, the watchers and the client of the server.
use trsync.Base.{
  ℕ, suc, ◌≡◌, ◌≤◌, refl, true, false, none, some, [], ◌∷◌, map, contains, length, ok, err, ◌==◌,
  nat_eq, list_eq, string_eq, if◌then◌else◌, arith,
}
use trsync.Base.Lines.{join}
use trsync.Core.Json.{Json}
use trsync.Core.Types.{created, parse_event_type, file, html_document}
use trsync.Core.Error.{content_already_exist}
use trsync.Core.Client.{Server, client, response_error, from_code}
use trsync.Core.Client.Files.{fill_file_with_content}
use trsync.Core.Client.Refused.{fill_file_with_content-refused}
use trsync.Ignore.{Ignore, is_ignored, write, to_string, try_from}
use trsync.Ignore.Utf8.{Bytes, as_bytes}
use trsync.Ignore.RoundTrip.{try_from-write}
use trsync.Remote.Watcher.{TracimLiveEvent, integer, proceed_remote_event}
use trsync.Remote.Watcher.Reference.{expected, proceed_remote_event-expected}
use trsync.State.Disk.{Row}
use trsync.Tests.Data.{workspace, raw}
use trsync.Tests.Stores.{rows}

abbrev ignored : Ignore
ignored = record { content_ids = 7 ∷ 12 ∷ [] }

-- Two characters, in four bytes.
abbrev other_lines : Bytes
other_lines = 195 ∷ 169 ∷ 195 ∷ 169 ∷ []

short : length other_lines ≤ length (as_bytes (to_string ignored))
unfolding to_string join as_bytes
short = omega arith

try_from-write_example :
    (write ignored (ok other_lines) ≡ ok (as_bytes (to_string ignored)))
    × (try_from (ok (as_bytes (to_string ignored))) ≡ ok ignored)
try_from-write_example = try_from-write ignored other_lines (omega arith, (omega arith, tt)) short

-- A document that has one number for a content and another one for all else.
abbrev doc : Json
doc = record {
  Value = ℕ;
  Object = ℕ;
  index = λ v key. v;
  as_object = λ v. if v == 0 then none else some v;
  get = λ o key. some (if key == "content_id" then 5 else o);
  as_i64 = λ v. some v;
  as_u64 = λ v. some v;
}

abbrev event : ℕ → TracimLiveEvent doc
event fields = record { event_type = "content.undeleted.folder"; fields = fields }

undeleted : parse_event_type "content.undeleted.folder" ≡ ok created
unfolding parse_event_type string_eq
undeleted = refl

content_5 : integer doc 3 "content" "content_id" ≡ ok 5
unfolding integer nat_eq string_eq
content_5 = refl

workspace_3 : integer doc 3 "workspace" "workspace_id" ≡ ok 3
unfolding integer nat_eq string_eq
workspace_3 = refl

proceed_remote_event-expected_example :
    proceed_remote_event doc ignored 3 (ok rows) (event 3)
    ≡ ok (
        expected created 5
          (is_ignored ignored 5)
          (◌==◌ {A = ℕ} 3 3)
          (contains (map (λ (r : Row). r.content_id) rows) 5))
proceed_remote_event-expected_example =
    proceed_remote_event-expected doc ignored 3 (ok rows) rows (event 3) created 5 3 refl undeleted
      content_5 workspace_3

-- A server that refuses everything because the content exists. The world counts the changes.
abbrev refusing : Server doc
refusing = record {
  World = ℕ;
  Response = ℕ;
  base_address = "https://tracim/api/";
  workspace_id = 3;
  status = λ r. 400;
  json_of = λ r. ok r;
  content_of = λ r. ok (raw 1 none);
  page_of = λ r. ok (record { has_next = true; items = [] });
  send = λ asked w. (ok 3002, suc w);
  build_client = λ w. ok tt;
  open_form = λ p w. ok tt;
  read_to_string = λ p w. ok [];
  extract_html_body = λ t. ok t;
  create_file = λ p w. (ok tt, suc w);
  copy = λ r p w. (ok tt, suc w);
  write_file = λ p t w. (ok tt, suc w);
}

refuses : (refusing.status 3002 == 200) ≡ false
unfolding nat_eq
refuses = refl

exists : response_error doc refusing 3002 ≡ ok content_already_exist
unfolding response_error from_code nat_eq
exists = refl

fill_file_with_content-refused_example :
    (fill_file_with_content doc refusing 5 html_document workspace 0
      ≡ (err (client content_already_exist), 1))
    × (fill_file_with_content doc refusing 5 file workspace 0 ≡ (ok tt, 3))
fill_file_with_content-refused_example =
    fill_file_with_content-refused doc refusing 0 1 3002 (λ asked. refl) 5 workspace
      content_already_exist 2 3 refuses exists refl refl
