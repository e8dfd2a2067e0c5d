-- ===== src/Watcher/Watch/Backoff.antt =====
-- internal/watcher/service.go, watchAccount: the waits between two connections.
use skybeam_mail.Prelude.{
  ℕ, zero, suc, ◌*◌, ◌≡◌, refl, ap, Bool, true, false, List, [], ◌∷◌, arith, length, All,
  Bool-cases, inl, inr, ◌⊎◌,
}
use skybeam_mail.Watcher.Watch.{
  Session, Return, second, first_backoff, next_backoff, idle_loop, watch_by, watch_from,
  watch_account,
}

-- The waits of this many failures in a row.
pub schedule : ℕ → ℕ → List ℕ
schedule backoff zero = []
schedule backoff (suc n) = backoff ∷ schedule (next_backoff backoff) n

-- The context stays done: where a session ends without an error, the next round finds it done.
abbrev pub StaysDone : List Session → Type 0
StaysDone [] = Unit {0}
StaysDone (s ∷ []) = Unit {0}
StaysDone (s ∷ t ∷ rest) = ((idle_loop s).0 ≡ Return.nil → t.done ≡ true) × StaysDone (t ∷ rest)

watch_from_done :
    (b : ℕ) (t : Session) (rest : List Session) → t.done ≡ true → watch_from b (t ∷ rest) ≡ []
unfolding watch_from idle_loop
watch_from_done b t rest e = rw e

StaysDone-tail : (s : Session) (rest : List Session) → StaysDone (s ∷ rest) → StaysDone rest
StaysDone-tail s [] h = tt
StaysDone-tail s (t ∷ rest) (_, h) = h

after_nil :
    (s : Session) (rest : List Session) (b : ℕ)
    → StaysDone (s ∷ rest)
    → (idle_loop s).0 ≡ Return.nil
    → watch_from b rest ≡ []
after_nil s [] b h e = unfold watch_from in refl
after_nil s (t ∷ rest) b (h, _) e = watch_from_done b t rest (h e)

by_return :
    (r : Return) (b : ℕ) (c : Bool) (rest : ℕ → List ℕ)
    → (r ≡ Return.nil → rest first_backoff ≡ [])
    → rest (next_backoff b) ≡ schedule (next_backoff b) (length (rest (next_backoff b)))
    → watch_by r b c rest ≡ schedule b (length (watch_by r b c rest))
unfolding watch_by schedule
by_return Return.nil b c rest h k = rw (h refl)
by_return Return.running b c rest h k = refl
by_return (Return.error stage) b true rest h k = refl
by_return (Return.error stage) b false rest h k = ap (λ l. b ∷ l) k

watch_from-schedule :
    (b : ℕ) (sessions : List Session)
    → StaysDone sessions
    → watch_from b sessions ≡ schedule b (length (watch_from b sessions))
unfolding watch_from schedule idle_loop
watch_from-schedule b [] h = refl
watch_from-schedule b (s ∷ rest) h = elim (Bool-cases s.done) [
  | inl over ↦ rw over
  | inr on ↦ rw on (
      by_return (idle_loop s).0 b s.wait_cancelled (λ c. watch_from c rest)
        (after_nil s rest first_backoff h)
        (watch_from-schedule (next_backoff b) rest (StaysDone-tail s rest h)))
]

-- Where the context stays done once it is, the waits of watchAccount are 5 s and then each as the
-- backoff rule makes it of the one before, however long the sessions between them lasted: no session
-- takes the backoff back to 5 s before another wait.
pub watch_account-schedule :
    (sessions : List Session)
    → StaysDone sessions
    → watch_account sessions ≡ schedule first_backoff (length (watch_account sessions))
unfolding watch_account
watch_account-schedule sessions h = watch_from-schedule first_backoff sessions h

-- The seven values of the backoff.
abbrev pub IsBackoff : ℕ → Type 0
IsBackoff b =
    (b ≡ 5 * second)
    ⊎ (b ≡ 10 * second)
    ⊎ (b ≡ 20 * second)
    ⊎ (b ≡ 40 * second)
    ⊎ (b ≡ 80 * second)
    ⊎ (b ≡ 160 * second)
    ⊎ (b ≡ 320 * second)

next_backoff-IsBackoff : (b : ℕ) → IsBackoff b → IsBackoff (next_backoff b)
unfolding next_backoff
next_backoff-IsBackoff b h = ground arith

by_return-IsBackoff :
    (r : Return) (b : ℕ) (c : Bool) (rest : ℕ → List ℕ)
    → IsBackoff b
    → All IsBackoff (rest first_backoff)
    → All IsBackoff (rest (next_backoff b))
    → All IsBackoff (watch_by r b c rest)
unfolding watch_by
by_return-IsBackoff Return.nil b c rest h k l = k
by_return-IsBackoff Return.running b c rest h k l = tt
by_return-IsBackoff (Return.error stage) b true rest h k l = (h, tt)
by_return-IsBackoff (Return.error stage) b false rest h k l = (h, l)

watch_from-IsBackoff :
    (b : ℕ) (sessions : List Session) → IsBackoff b → All IsBackoff (watch_from b sessions)
unfolding watch_from idle_loop
watch_from-IsBackoff b [] h = tt
watch_from-IsBackoff b (s ∷ rest) h = elim (Bool-cases s.done) [
  | inl over ↦ rw over tt
  | inr on ↦ rw on (
      by_return-IsBackoff (idle_loop s).0 b s.wait_cancelled (λ c. watch_from c rest) h
        (watch_from-IsBackoff first_backoff rest (inl refl))
        (watch_from-IsBackoff (next_backoff b) rest (next_backoff-IsBackoff b h)))
]

-- Every wait is one of 5, 10, 20, 40, 80, 160 and 320 s, whatever the sessions: so the longest is 5
-- minutes and 20 seconds.
pub watch_account-IsBackoff : (sessions : List Session) → All IsBackoff (watch_account sessions)
unfolding watch_account
watch_account-IsBackoff sessions = watch_from-IsBackoff first_backoff sessions (inl refl)
