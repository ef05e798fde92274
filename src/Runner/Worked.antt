-- ===== src/Runner/Worked.antt =====
-- trsync/src/run2.rs: what the rounds have operated when they succeed.
pub mod Forget
pub mod Startup
use mathlib.Core.List.{append_assoc, append-nil, Perm, perm_middle}
use mathlib.Core.List.Perm
use mathlib.Core.Path.{subst}
use trsync.Base.{
  ℕ, zero, suc, length, ◌<◌, Bool, true, false, Bool-cases, Outcome-cases, Option, Option-cases,
  not, contains, filter, ◌&&◌, list_eq, string_eq, Outcome, inl, inr, ◌≡◌, ◌⊎◌, ◌∙◌, refl, sym, ap,
  none, some, List, [], ◌∷◌, ◌++◌, map, ok, err, ◌==◌, nat_eq, arith,
}
use trsync.Core.Change.{Change}
use trsync.Core.Change.Local.{LocalChange}
use trsync.Core.Change.Remote.{RemoteChange}
use trsync.Core.Error.{OperatorError, executor_error, missing_parent}
use trsync.Event.{Event, from_change}
use trsync.Sync.{force_local, resolve}
use trsync.Sync.Resolved.{resolve-reference}
use trsync.Core.Change.Local as LocalPath
use trsync.Core.Change.Remote as RemotePath
use trsync.Runner.Start.Total.{sync__total}
use trsync.Runner.{
  Interface, RunnerError, round, operate_changes, startup_sync, waiting_startup_sync_confirmation,
  idle, sync_, confirmed, apply,
}

-- What has been operated since the log was `log`, with the events of what remains, is that of these changes.
abbrev pub Operated : List Event → List Event → List Change → List Change → Type 0
Operated log log' changes remaining =
    (done : List Event) × (log' ≡ log ++ done)
    × Perm (done ++ map from_change remaining) (map from_change changes)

pub perm_of_eq : {xs ys : List Event} → xs ≡ ys → Perm xs ys
perm_of_eq {xs} e = subst (λ ys. Perm xs ys) e Perm.rfl

Operated-now :
    (change : Change) (rest remaining : List Change) (log log' : List Event)
    → Operated (log ++ (from_change change ∷ [])) log' rest remaining
    → Operated log log' (change ∷ rest) remaining
Operated-now change rest remaining log log' (done, same, found) = (
  from_change change ∷ done,
  same ∙ append_assoc log (from_change change ∷ []) done,
  Perm.cons (from_change change) found,
)

Operated-later :
    (change : Change) (rest later remaining : List Change) (log log' : List Event)
    → remaining ≡ change ∷ later
    → Operated log log' rest later
    → Operated log log' (change ∷ rest) remaining
Operated-later change rest later remaining log log' e (done, same, found) = (
  done,
  same,
  Perm.trans (perm_of_eq (ap (λ cs. done ++ map from_change cs) e)) (
      Perm.trans (perm_middle done (map from_change later)) (Perm.cons (from_change change) found)),
)

Operated-then :
    (changes remaining last : List Change) (log log' log'' : List Event)
    → Operated log log' changes remaining
    → Operated log' log'' remaining last
    → Operated log log'' changes last
Operated-then changes remaining last log log' log'' (done, same, found) (done', same', found') = (
  done ++ done',
  same' ∙ ap (λ xs. xs ++ done') same ∙ append_assoc log done done',
  Perm.trans (perm_of_eq (append_assoc done done' (map from_change last)))
      (Perm.trans (Perm.append_left done found') found),
)

Operated-none :
    (changes remaining : List Change) (log log' : List Event)
    → remaining ≡ changes
    → log' ≡ log
    → Operated log log' changes remaining
Operated-none changes remaining log log' none_done e =
    ([], e ∙ sym (append-nil log), perm_of_eq (ap (map from_change) none_done))

module _ (I : Interface) where
  abbrev noted :
      Event
      → List Event
      → Outcome OperatorError (Unit {0}) × I.Operator
      → Outcome OperatorError (Unit {0}) × (I.Operator × List Event)
  noted e log (ok _, o) = (ok tt, (o, log ++ (e ∷ [])))
  noted e log (err x, o) = (err x, (o, log))

  -- The same operator, with the list of the events that it has operated with success, the first one in front.
  abbrev pub logged : Interface
  logged = record {
    Operator = I.Operator × List Event;
    operate = λ e (o, log). noted e log (I.operate e o);
    send = λ a (o, log). let (sent, o') = I.send a o in (sent, (o', log));
    deal = λ r l (o, log). let (answer, o') = I.deal r l o in (answer, (o', log));
  }

  round-logged :
      (changes : List Change) (o : I.Operator) (log : List Event) (remaining : List Change)
      (o' : I.Operator) (log' : List Event)
      → round logged changes (o, log) ≡ (ok remaining, (o', log'))
      → Operated log log' changes remaining
  unfolding round
  round-logged [] o log remaining o' log' p =
      Operated-none [] remaining log log' (ground arith) (ground arith)
  round-logged (change ∷ rest) o log remaining o' log' p =
      let e = from_change change in
      let o1 = (I.send (startup_sync (some change)) o).1 in
      let o2 = (I.operate e o1).1 in
      let o3 = (I.send (startup_sync none) o2).1 in
      elim (Bool-cases (I.send (startup_sync (some change)) o).0) [
        | inr a ↦ absurd (ground arith)
        | inl a ↦ elim (Bool-cases (I.send (startup_sync none) o2).0) [
          | inl b ↦ elim (Outcome-cases (I.operate e o1).0) [
            | inr (_, r) ↦
                Operated-now change rest remaining log log'
                  (round-logged rest o3 (log ++ (e ∷ [])) remaining o' log' (ground arith))
            | inl (executor_error (missing_parent _ _), r) ↦
                elim (Outcome-cases (round logged rest (o3, log)).0) [
                  | inl (f, t) ↦ absurd (ground arith)
                  | inr (later, t) ↦
                      Operated-later change rest later remaining log log' (ground arith)
                        (round-logged rest o3 log later o' log' (ground arith))
                ]
            | inl (_, r) ↦ absurd (ground arith)
          ]
          | inr b ↦ elim (Outcome-cases (I.operate e o1).0) [
            | inr (_, r) ↦ absurd (ground arith)
            | inl (executor_error (missing_parent _ _), r) ↦ absurd (ground arith)
            | inl (_, r) ↦ absurd (ground arith)
          ]
        ]
      ]

  no_changes : (changes : List Change) → length changes ≡ 0 → changes ≡ []
  no_changes [] _ = refl
  no_changes (c ∷ cs) e = ground arith

  pub operate_changes-logged :
      (fuel : ℕ) (changes : List Change) (o : I.Operator) (log : List Event) (o' : I.Operator)
      (log' : List Event)
      → operate_changes logged fuel changes (o, log) ≡ some (ok tt, (o', log'))
      → Operated log log' changes []
  unfolding operate_changes
  operate_changes-logged zero changes o log o' log' p = ground arith
  operate_changes-logged (suc fuel) changes o log o' log' p =
      let (o1, log1) = (round logged changes (o, log)).1 in
      elim (Outcome-cases (round logged changes (o, log)).0) [
        | inl (f, q) ↦ absurd (ground arith)
        | inr (remaining, q) ↦
            let first = round-logged changes o log remaining o1 log1 (ground arith) in
            elim (nat_eq.dec (length remaining) 0) [
              | yes z ↦
                  subst (λ cs. Operated log log' changes cs) (no_changes remaining z)
                    (subst (λ l. Operated log l changes remaining) (ground arith) first)
              | no n ↦ elim (nat_eq.dec (length remaining) (length changes)) [
                | yes s ↦ absurd (ground arith)
                | no m ↦
                    Operated-then changes remaining [] log log1 log' first
                      (operate_changes-logged fuel remaining o1 log1 o' log' (ground arith))
              ]
            ]
      ]
