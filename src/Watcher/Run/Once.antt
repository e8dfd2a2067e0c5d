-- ===== src/Watcher/Run/Once.antt =====
-- internal/watcher/service.go, Run: the watchers that it starts.
use skybeam_mail.Prelude.{
  ℕ, ◌≡◌, refl, ◌∙◌, true, false, Option, none, some, List, [], ◌∷◌, ◌++◌, any, ◌==◌, map, All,
  All-append, All-map, arith, inl, inr, Bool-cases,
}
use mathlib.Core.List.{map-append}
use skybeam_mail.Store.Table.Laws.{any-append}
use skybeam_mail.Watcher.Run.{
  AccountInfo, Watchers, watch_one, watch_all, refresh, Signal, run_loop, run,
}

-- No number is listed twice.
abbrev pub IsDistinct : List ℕ → Type 0
IsDistinct [] = Unit {0}
IsDistinct (k ∷ ks) = (any (λ j. j == k) ks ≡ false) × IsDistinct ks

IsDistinct-snoc :
    (ks : List ℕ) (n : ℕ) → any (λ k. k == n) ks ≡ false → IsDistinct ks → IsDistinct (ks ++ n ∷ [])
IsDistinct-snoc [] n e h = (refl, tt)
IsDistinct-snoc (k ∷ ks) n e (q, h) =
    (any-append (λ j. j == k) ks (n ∷ []) ∙ ground arith, IsDistinct-snoc ks n (ground arith) h)

-- The keys are the accounts of the goroutines, each once.
pub record IsOnce (w : Watchers) : Type 0 where
  pub distinct : IsDistinct w.watching
  pub same : map (λ a. a.id) w.started ≡ w.watching

watch_one-IsOnce : (w : Watchers) (acc : AccountInfo) → IsOnce w → IsOnce (watch_one w acc)
unfolding watch_one
watch_one-IsOnce w acc h = elim (Bool-cases (any (λ k. k == acc.id) w.watching)) [
  | inl old ↦ rw old h
  | inr new ↦ rw new (record {
    distinct = IsDistinct-snoc w.watching acc.id new h.distinct;
    same = rw (map-append, h.same) refl;
  })
]

watch_all-IsOnce :
    (w : Watchers) (accounts : List AccountInfo) → IsOnce w → IsOnce (watch_all w accounts)
unfolding watch_all
watch_all-IsOnce w [] h = h
watch_all-IsOnce w (acc ∷ accounts) h =
    watch_all-IsOnce (watch_one w acc) accounts (watch_one-IsOnce w acc h)

refresh-IsOnce :
    (w : Watchers) (listed : Option (List AccountInfo)) → IsOnce w → IsOnce (refresh w listed)
unfolding refresh
refresh-IsOnce w none h = h
refresh-IsOnce w (some accounts) h = watch_all-IsOnce w accounts h

run_loop-IsOnce : (w : Watchers) (signals : List Signal) → IsOnce w → IsOnce (run_loop w signals)
unfolding run_loop
run_loop-IsOnce w [] h = h
run_loop-IsOnce w (Signal.tick listed ∷ signals) h =
    run_loop-IsOnce (refresh w listed) signals (refresh-IsOnce w listed h)
run_loop-IsOnce w (Signal.stop ∷ signals) h = record { distinct = h.distinct; same = h.same }

-- Whatever the accounts listed at each refresh, no account has two watchers: the goroutines started
-- are those of the keys of the map, each once.
pub run-IsOnce :
    (listed : Option (List AccountInfo)) (signals : List Signal) → IsOnce (run listed signals)
unfolding run
run-IsOnce listed signals =
    run_loop-IsOnce _ signals (refresh-IsOnce _ listed (record { distinct = tt; same = refl }))

abbrev pub IsWatched : Watchers → ℕ → Type 0
IsWatched w k = any (λ j. j == k) w.watching ≡ true

watch_one-keeps :
    (w : Watchers) (acc : AccountInfo) (k : ℕ) → IsWatched w k → IsWatched (watch_one w acc) k
unfolding watch_one
watch_one-keeps w acc k h = ground (arith, any-append (λ j. j == k) w.watching (acc.id ∷ []))

watch_one-adds : (w : Watchers) (acc : AccountInfo) → IsWatched (watch_one w acc) acc.id
unfolding watch_one
watch_one-adds w acc = ground (arith, any-append (λ j. j == acc.id) w.watching (acc.id ∷ []))

watch_all-keeps :
    (w : Watchers) (accounts : List AccountInfo) (k : ℕ)
    → IsWatched w k
    → IsWatched (watch_all w accounts) k
unfolding watch_all
watch_all-keeps w [] k h = h
watch_all-keeps w (acc ∷ accounts) k h =
    watch_all-keeps (watch_one w acc) accounts k (watch_one-keeps w acc k h)

pub watch_all-adds :
    (w : Watchers) (accounts : List AccountInfo)
    → All (λ a. IsWatched (watch_all w accounts) a.id) accounts
unfolding watch_all
watch_all-adds w [] = tt
watch_all-adds w (acc ∷ accounts) = (
  watch_all-keeps (watch_one w acc) accounts acc.id (watch_one-adds w acc),
  watch_all-adds (watch_one w acc) accounts,
)

pub run_loop-keeps :
    (w : Watchers) (signals : List Signal) (k : ℕ)
    → IsWatched w k
    → IsWatched (run_loop w signals) k
unfolding run_loop refresh
run_loop-keeps w [] k h = h
run_loop-keeps w (Signal.tick none ∷ signals) k h = run_loop-keeps w signals k h
run_loop-keeps w (Signal.tick (some accounts) ∷ signals) k h =
    run_loop-keeps (watch_all w accounts) signals k (watch_all-keeps w accounts k h)
run_loop-keeps w (Signal.stop ∷ signals) k h = h

-- The lists of accounts that the refreshes read before the service stops.
abbrev pub listed_in : List Signal → List AccountInfo
listed_in [] = []
listed_in (Signal.tick none ∷ signals) = listed_in signals
listed_in (Signal.tick (some accounts) ∷ signals) = accounts ++ listed_in signals
listed_in (Signal.stop ∷ signals) = []

run_loop-adds :
    (w : Watchers) (signals : List Signal)
    → All (λ a. IsWatched (run_loop w signals) a.id) (listed_in signals)
unfolding run_loop refresh
run_loop-adds w [] = tt
run_loop-adds w (Signal.tick none ∷ signals) = run_loop-adds w signals
run_loop-adds w (Signal.tick (some accounts) ∷ signals) =
    All-append _ accounts (listed_in signals)
      (All-map _ _ accounts (λ a. run_loop-keeps (watch_all w accounts) signals a.id)
        (watch_all-adds w accounts))
      (run_loop-adds (watch_all w accounts) signals)
run_loop-adds w (Signal.stop ∷ signals) = tt

-- Every account that some refresh listed before the service stopped is in the map at the end.
pub run-watches :
    (listed : Option (List AccountInfo)) (signals : List Signal)
    → All (λ a. IsWatched (run listed signals) a.id) (listed_in (Signal.tick listed ∷ signals))
unfolding run run_loop
run-watches listed signals = run_loop-adds _ (Signal.tick listed ∷ signals)
