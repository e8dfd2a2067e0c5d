-- ===== src/Reconciler/Run/Moves.antt =====
-- internal/reconciler/service.go: what one step of a goroutine of runAll does to folder_view.
use skybeam_mail.Prelude.{
  ℕ, zero, suc, ◌+◌, length, ◌≡◌, ◌⊎◌, inl, inr, refl, sym, ap, ◌∙◌, Bool, true, false, ◌&&◌, ◌||◌,
  ◌==◌, ==_iff, List, [], ◌∷◌, any, All, Text, Bool-cases, arith,
}
use mathlib.Core.Path.{subst}
use skybeam_mail.Events.Types.{EventType, reconciled}
use skybeam_mail.Events.Writer.{emit_with}
use skybeam_mail.Events.Writer.Log.{Keeps-emit_with, insert_event-folders}
use skybeam_mail.Store.Rows.{Store, FolderRow, MessageRow}
use skybeam_mail.Store.Table.{select}
use skybeam_mail.Store.World.{Env, World, IsCalm, exec}
use skybeam_mail.Store.World.Calm.{exec-some}
use skybeam_mail.Reconciler.{is_live, groups, has_key, upsert_groups, refresh_counts, Reconciled}
use skybeam_mail.Reconciler.Groups.{
  upsert_groups-Exact_named, upsert_groups-has_key_named, any-groups,
}
use skybeam_mail.Reconciler.Counts.{holds, IsCounted, Exact-selected}
use skybeam_mail.Reconciler.Run.{Phase, Task, advance_phase, advance, advance_nth}
use skybeam_mail.Reconciler.Run.Foreign.{upsert_groups-foreign, upsert_groups-kept_key}

-- A goroutine that has got past refreshFolderCounts.
unfoldable pub is_past : Phase → Bool
is_past (Phase.connecting c) = false
is_past Phase.counted = true
is_past (Phase.ended Reconciled.reconciled_account) = true
is_past (Phase.ended Reconciled.connect_failed) = false
is_past (Phase.ended Reconciled.login_failed) = false
is_past (Phase.ended Reconciled.list_failed) = false

abbrev pub past : ℕ → Task → Bool
past account t = t.account == account && is_past t.phase

module _ (env : Env) (calm : IsCalm env) (account : ℕ) (name : Text) (before : Store)
    (held : holds account name before ≡ true) where
  -- The rows of folder_view have the folder, with the counts of the messages.
  abbrev pub CountedRows : List FolderRow → Type 0
  CountedRows folders =
      (any (has_key account name) folders ≡ true)
      × All (IsCounted account name before) (select (has_key account name) folders)

  own-CountedRows :
      (now : ℕ) (folders : List FolderRow)
      → let live = select (is_live account) before.messages in
        CountedRows (upsert_groups account now live (groups live) folders)
  own-CountedRows now folders =
      let live = select (is_live account) before.messages in
      let named = any-groups name live ∙ held in
      (
        upsert_groups-has_key_named account now live name (groups live) folders named,
        Exact-selected account now before name _
            (upsert_groups-Exact_named account now live name (groups live) folders named),
      )

  -- A refresh of any account leaves a folder that is counted as counted.
  refreshed-CountedRows :
      (other now : ℕ) (folders : List FolderRow)
      → CountedRows folders
      → let live = select (is_live other) before.messages in
        CountedRows (upsert_groups other now live (groups live) folders)
  refreshed-CountedRows other now folders (there, exact) = elim (Bool-cases (account == other)) [
    | inl same ↦
        let e : account ≡ other = (==_iff account other).0 same in
        subst
          (λ n.
            let live = select (is_live n) before.messages in
            CountedRows (upsert_groups n now live (groups live) folders))
          e (own-CountedRows now folders)
    | inr foreign ↦
        let live = select (is_live other) before.messages in
        (
          upsert_groups-kept_key other now live account name (groups live) folders there,
          subst (All (IsCounted account name before))
              (sym
                (upsert_groups-foreign other now live account name (groups live) folders foreign))
              exact,
        )
  ]

  -- What a step does, by whether a goroutine of the account is past refreshFolderCounts before it and
  -- behind it.
  pub record Moves (was : Bool) (w : World) (is : Bool) (v : World) : Type 0 where
    pub messages : v.db.messages ≡ w.db.messages
    pub grows : CountedRows w.db.folders → CountedRows v.db.folders
    pub new : is ≡ true → (was ≡ true) ⊎ CountedRows v.db.folders

  -- A step that leaves both views as they are, with no goroutine newly past the refresh.
  pub same-Moves :
      (was is : Bool) (w v : World)
      → v.db.messages ≡ w.db.messages
      → v.db.folders ≡ w.db.folders
      → (is ≡ true → was ≡ true)
      → Moves was w is v
  same-Moves was is w v m f h = record {
    messages = m;
    grows = subst CountedRows (sym f);
    new = λ p. inl (h p);
  }

  refreshed : ℕ → World → List FolderRow
  refreshed other w =
      let live = select (is_live other) before.messages in
      upsert_groups other (env.tick w.calls).now live (groups live) w.db.folders

  refresh-rows :
      (other : ℕ) (w : World)
      → w.db.messages ≡ before.messages
      → let v = (exec env (refresh_counts other) w).1 in
        (v.db.messages ≡ w.db.messages) × (v.db.folders ≡ refreshed other w)
  unfolding refresh_counts refreshed
  refresh-rows other w m =
      let now = (env.tick w.calls).now in
      let rows = λ (ms : List MessageRow).
        let live = select (is_live other) ms in
        upsert_groups other now live (groups live) w.db.folders in
      let db' : Store = record w.db {
        folders = rows w.db.messages;
        next_id = w.db.next_id + length (groups (select (is_live other) w.db.messages));
      } in
      let made = exec-some env calm (refresh_counts other) w db' refl in
      (rw made refl, rw made (ap rows m))

  refresh-Moves :
      (other : ℕ) (was : Bool) (w : World)
      → w.db.messages ≡ before.messages
      → Moves was w (other == account && true) (exec env (refresh_counts other) w).1
  unfolding refreshed
  refresh-Moves other was w m =
      let now = (env.tick w.calls).now in
      let (kept, rows) = refresh-rows other w m in
      record {
        messages = kept;
        grows = λ c. subst CountedRows (sym rows) (refreshed-CountedRows other now w.db.folders c);
        new = λ p. inr (
            subst CountedRows (sym rows) (
              subst
                (λ n.
                  let live = select (is_live n) before.messages in
                  CountedRows (upsert_groups n now live (groups live) w.db.folders))
                (sym ((==_iff other account).0 (ground arith)))
                (own-CountedRows now w.db.folders)));
      }

  emitted :
      (other : ℕ) (w : World)
      → let v = (emit_with env other EventType.reconcile_complete [] [] (reconciled 0 0 0) w).1 in
        (v.db.messages ≡ w.db.messages) × (v.db.folders ≡ w.db.folders)
  emitted other w =
      (Keeps-emit_with (λ db. (db.messages ≡ w.db.messages) × (db.folders ≡ w.db.folders)) env
          (λ e _ now db db' p q.
            let (f, m) = insert_event-folders env e now db db' q in (m ∙ p.0, f ∙ p.1))
          other EventType.reconcile_complete [] [] (reconciled 0 0 0)).at
        w (refl, refl)

  phase-Moves :
      (other : ℕ) (p : Phase) (w : World)
      → w.db.messages ≡ before.messages
      → let out = advance_phase env other p w in
        Moves (other == account && is_past p) w (other == account && is_past out.0) out.1
  unfolding advance_phase is_past
  phase-Moves other Phase.counted w m =
      let (kept, rows) = emitted other w in same-Moves _ _ w _ kept rows (λ p. p)
  phase-Moves other (Phase.ended r) w m = same-Moves _ _ w w refl refl (λ p. p)
  phase-Moves other (Phase.connecting c) w m = elim (Bool-cases c.dial_fails) [
    | inl bad ↦ rw bad (same-Moves _ _ w w refl refl (λ p. p))
    | inr dialled ↦ elim (Bool-cases c.login_fails) [
      | inl bad ↦ rw (dialled, bad) (same-Moves _ _ w w refl refl (λ p. p))
      | inr entered ↦ elim (Bool-cases c.list_fails) [
        | inl bad ↦ rw (dialled, entered, bad) (same-Moves _ _ w w refl refl (λ p. p))
        | inr listed ↦ rw (dialled, entered, listed) (refresh-Moves other _ w m)
      ]
    ]
  ]

  beside-Moves :
      (left right was is : Bool) (w v : World)
      → Moves was w is v
      → Moves (left || was || right) w (left || is || right) v
  beside-Moves left right was is w v moved = record {
    messages = moved.messages;
    grows = moved.grows;
    new = λ p. elim (Bool-cases is) [
      | inl now ↦ elim (moved.new now) [
        | inl then_ ↦ inl (rw then_ (ground arith))
        | inr counted ↦ inr counted
      ]
      | inr never ↦ inl (ground arith)
    ];
  }

  pub nth-Moves :
      (n : ℕ) (tasks : List Task) (w : World)
      → w.db.messages ≡ before.messages
      → let out = advance_nth env n tasks w in
        Moves (any (past account) tasks) w (any (past account) out.0) out.1
  unfolding advance_nth advance
  nth-Moves n [] w m = same-Moves _ _ w w refl refl (λ p. p)
  nth-Moves zero (t ∷ tasks) w m =
      beside-Moves false (any (past account) tasks) _ _ w _ (phase-Moves t.account t.phase w m)
  nth-Moves (suc n) (t ∷ tasks) w m =
      let moved = nth-Moves n tasks w m in
      record {
        messages = moved.messages;
        grows = moved.grows;
        new = λ p. elim (Bool-cases (past account t)) [
          | inl first ↦ inl (rw first refl)
          | inr other ↦ elim (moved.new (rw other at p)) [
            | inl was ↦ inl (rw (other, was) refl)
            | inr counted ↦ inr counted
          ]
        ];
      }
