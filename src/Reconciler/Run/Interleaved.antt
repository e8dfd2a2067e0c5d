-- ===== src/Reconciler/Run/Interleaved.antt =====
-- internal/reconciler/service.go: goroutines of runAll that run beside each other, in any order.
use skybeam_mail.Prelude.{
  ℕ, ◌≡◌, inl, inr, refl, ◌∙◌, true, false, Option, none, some, List, [], ◌∷◌, any, Text,
  Bool-cases, arith,
}
use skybeam_mail.Store.Rows.{Store, AccountRow}
use skybeam_mail.Store.Table.Laws.{any-append}
use skybeam_mail.Store.World.{Env, World, IsCalm, query}
use skybeam_mail.Store.World.Calm.{query-some}
use skybeam_mail.Reconciler.{Connection, finish, reconcile_account}
use skybeam_mail.Reconciler.Counts.{holds, Counted}
use skybeam_mail.Reconciler.Run.{
  Phase, Task, advance_phase, active_accounts, task_of, tasks_of, run_all, Choice, take_step,
  interleave,
}
use skybeam_mail.Reconciler.Run.Moves.{is_past, past, CountedRows, Moves, same-Moves, nth-Moves}

-- A reconcileAccount that no other goroutine comes between is its two steps in a row: it ends as that
-- does, with the same database.
pub advance_phase-alone :
    (env : Env) (account : ℕ) (c : Connection) (w : World)
    → let (p, v) = advance_phase env account (Phase.connecting c) w in
      let (q, u) = advance_phase env account p v in
      (q ≡ Phase.ended (reconcile_account env account c w).0)
      × (u ≡ (reconcile_account env account c w).1)
unfolding advance_phase reconcile_account finish
advance_phase-alone env account c w = elim (Bool-cases c.dial_fails) [
  | inl bad ↦ rw bad (refl, refl)
  | inr dialled ↦ elim (Bool-cases c.login_fails) [
    | inl bad ↦ rw (dialled, bad) (refl, refl)
    | inr entered ↦ elim (Bool-cases c.list_fails) [
      | inl bad ↦ rw (dialled, entered, bad) (refl, refl)
      | inr listed ↦ rw (dialled, entered, listed) (refl, refl)
    ]
  ]
]

started-past :
    (account : ℕ) (connections : ℕ → Connection) (rows : Option (List AccountRow))
    → any (past account) (tasks_of connections rows) ≡ false
unfolding tasks_of task_of is_past
started-past account connections none = refl
started-past account connections (some []) = refl
started-past account connections (some (a ∷ rows)) =
    ground (arith, started-past account connections (some rows))

module _ (env : Env) (calm : IsCalm env) (account : ℕ) (name : Text) (before : Store)
    (held : holds account name before ≡ true) where
  run_all-Moves :
      (connections : ℕ → Connection) (tasks : List Task) (w : World)
      → let out = run_all env connections tasks w in
        Moves env calm account name before held
          (any (past account) tasks)
          w
          (any (past account) out.0)
          out.1
  unfolding run_all
  run_all-Moves connections tasks w =
      let asked = query-some env calm [] active_accounts w refl in
      same-Moves env calm account name before held _ _ w _ (rw asked refl) (rw asked refl) (λ p.
        let e =
          any-append (past account) tasks
            (tasks_of connections (query env [] active_accounts w).0) in
        let none_past = started-past account connections (query env [] active_accounts w).0 in
        ground (arith, e, none_past, p))

  step-Moves :
      (choice : Choice) (tasks : List Task) (w : World)
      → w.db.messages ≡ before.messages
      → let out = take_step env choice tasks w in
        Moves env calm account name before held
          (any (past account) tasks)
          w
          (any (past account) out.0)
          out.1
  unfolding take_step
  step-Moves (Choice.tick connections) tasks w m = run_all-Moves connections tasks w
  step-Moves (Choice.go n) tasks w m = nth-Moves env calm account name before held n tasks w m

  interleave-holds :
      (choices : List Choice) (tasks : List Task) (w : World)
      → w.db.messages ≡ before.messages
      → (any (past account) tasks ≡ true
          → CountedRows env calm account name before held w.db.folders)
      → any (past account) (interleave env choices tasks w).0 ≡ true
      → CountedRows env calm account name before held (interleave env choices tasks w).1.db.folders
  unfolding interleave
  interleave-holds [] tasks w m inv p = inv p
  interleave-holds (choice ∷ choices) tasks w m inv p =
      let out = take_step env choice tasks w in
      let moved = step-Moves choice tasks w m in
      interleave-holds choices out.0 out.1 (moved.messages ∙ m)
        (λ q. elim (moved.new q) [ inl was ↦ moved.grows (inv was) | inr counted ↦ counted ]) p

-- However the goroutines of runAll for the accounts, of one tick and of several, run beside each other:
-- once one of an account has got past refreshFolderCounts, folder_view has a row with the right
-- numbers for every folder in which the account has a message that is not marked as deleted, as long
-- as every call is answered and the messages stay as they are.
pub interleave-Counted :
    (env : Env) (account : ℕ) (name : Text) (choices : List Choice) (w : World)
    → IsCalm env
    → holds account name w.db ≡ true
    → any (past account) (interleave env choices [] w).0 ≡ true
    → Counted account name w.db (interleave env choices [] w).1.db
interleave-Counted env account name choices w calm held p =
    interleave-holds env calm account name w.db held choices [] w refl (λ q. cc) p
