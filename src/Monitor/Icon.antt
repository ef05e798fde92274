-- ===== src/Monitor/Icon.antt =====
-- systray/src/icon.rs, systray/src/linux.rs and systray/src/windows.rs: the icon that calls for the user.
use trsync.Base.{Bool, true, false, not, ◌||◌, none, some, List, [], ◌∷◌}
use trsync.Base.HashMap.{values}
use trsync.Core.Job.{job_eq}
use trsync.Runner.Monitor.{ActivityState, is_working}
use trsync.Monitor.{SyncChannels, SyncExchanger, ErrorChannels, ErrorExchanger}

pub data Icon : Type 0 where
  idle working1 working2 working3 working4 working5 working6 working7 working8 ask error : Icon

abbrev has_changes : SyncChannels → Bool
has_changes channels = elim channels.changes [ none ↦ false | some _ ↦ true ]

abbrev pub calls : ErrorChannels → Bool
calls channels = elim channels.error [ none ↦ false | some _ ↦ not channels.seen ]

abbrev pub any_of {ℓ} : {A : Type ℓ} → (A → Bool) → List A → Bool
any_of p [] = false
any_of p (x ∷ xs) = p x || any_of p xs

unfoldable pub is_waiting_spaces : SyncExchanger → Bool
is_waiting_spaces channels = any_of has_changes (values channels)

unfoldable pub is_error_spaces : ErrorExchanger → Bool
is_error_spaces channels = any_of calls (values channels)

working : Icon → Icon
working idle = working1
working working1 = working2
working working2 = working3
working working3 = working4
working working4 = working5
working working5 = working6
working working6 = working7
working working7 = working8
working working8 = working1
working ask = working1
working error = working1

-- An icon that blinks.
blinking : Icon → Icon → Icon
blinking shown idle = shown
blinking shown _ = idle

-- What the timer computes.
unfoldable pub next_icon : SyncExchanger → ErrorExchanger → ActivityState → Icon → Icon
unfolding is_waiting_spaces is_error_spaces working blinking is_working
next_icon syncs errors_ activities current = elim (is_error_spaces errors_) [
  | true ↦ blinking error current
  | false ↦ elim (is_waiting_spaces syncs) [
    | true ↦ blinking ask current
    | false ↦ elim (is_working activities) [ true ↦ working current | false ↦ idle ]
  ]
]
