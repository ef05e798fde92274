-- ===== src/Core/Client/Live.antt =====
-- core/src/client.rs: how `RemoteWatcher::listen` of trsync/src/remote/watcher.rs gets its stream of live messages.
use trsync.Base.{ℕ, [], ◌∷◌, Outcome, ok, err, ◌==◌, nat_eq, if◌then◌else◌}
use trsync.Base.Lines.{Text}
use trsync.Core.Json.{Json, integer_of}
use trsync.Core.Error.{unknown, invalid_response}
use trsync.Core.Client.{
  ReqwestError, from_reqwest, word, number, get, no_payload, Failure, client, panic, Server, Call,
  request, reqwest, lift, ◌>>=◌,
}

module _ (J : Json) (S : Server J) (text_of : S.Response → Outcome ReqwestError Text) where
  -- Any other status than 200; the text is read for the message.
  abbrev unexpected_status {ℓ} : {A : Type ℓ} → S.Response → Outcome Failure A
  unexpected_status response = elim (text_of response) [
    | ok text ↦ err (client unknown)
    | err e ↦ err (client (from_reqwest e))
  ]

  user_id_of : S.Response → Outcome Failure ℕ
  user_id_of response =
      if S.status response == 200
      then (elim (reqwest J S (S.json_of response)) [
        | err e ↦ err e
        | ok value ↦ integer_of J (client invalid_response) panic value "user_id"
      ])
      else unexpected_status response

  unfoldable pub get_user_id : Call J S ℕ
  unfolding user_id_of
  get_user_id = do
    response ← request J S get (word S.base_address ∷ word "auth/whoami" ∷ []) no_payload
    lift J S (user_id_of response)

  live_messages : S.Response → Outcome Failure S.Response
  live_messages response =
      if S.status response == 200 then ok response else unexpected_status response

  unfoldable pub get_user_live_messages_response : ℕ → Call J S S.Response
  unfolding live_messages
  get_user_live_messages_response user_id = do
    response ←
        request J S get
          (word S.base_address ∷ word "users/" ∷ number user_id ∷ word "/live_messages" ∷ [])
          no_payload
    lift J S (live_messages response)

  -- What `listen` does before its loop; an error ends it.
  unfoldable pub open_stream : Call J S S.Response
  unfolding get_user_id get_user_live_messages_response
  open_stream = do user_id ← get_user_id; get_user_live_messages_response user_id
