-- ===== src/Master/Watcher/Live.antt =====
-- internal/master/watcher/watcher.go: every pending event has a timer that is still to go off, or a
-- goroutine that is about to emit it.
use craft_stack.Prelude.{
  ◌≡◌, ◌≢◌, refl, ap, List, [], ◌∷◌, ◌++◌, Text, false, not, ◌&&◌, ◌==◌, Option, none, some, inl,
  inr, ◌⊎◌, same, same_iff, same_self, Bool-cases, arith,
}
use mathlib.Core.Path.{subst}
use mathlib.Core.Option.{some_inj}
use craft_stack.Prelude.Among.{Among, Among-left, Among-right, Among-last, Among-taken, Among-keep}
use craft_stack.Prelude.Dict.{get, get-put, get-remove}
use craft_stack.Master.Watcher.{
  FileEvent, Timer, PendingEvent, Watcher, emit, emit_found, debounce, stop_timer, stop_pending,
}

-- A timer that will emit the path, or a goroutine that is about to
abbrev pub HasTrigger : Text → Timer → Watcher → Type 0
HasTrigger p t w = Among t w.armed ⊎ Among p w.started

abbrev pub Owned : Text → PendingEvent → Watcher → Type 0
Owned p pe w = (pe.timer.path ≡ p) × (pe.event.path ≡ p) × HasTrigger p pe.timer w

abbrev pub IsLive : Watcher → Type 0
IsLive w = (p : Text) (pe : PendingEvent) → get w.pending p ≡ some pe → Owned p pe w

stop_other :
    (t u : Timer) (ts : List Timer) → t.path ≢ u.path → Among u ts → Among u (stop_timer t ts)
unfolding stop_timer
stop_other t u ts h m =
    Among-keep (λ v. not (t.id == v.id && same t.path v.path)) u ts
      (ground (arith, same_iff t.path u.path)) m

module _ (w : Watcher) (live : IsLive w) where
  pub IsLive-fire :
      (before after : List Timer) (t : Timer)
      → w.armed ≡ before ++ t ∷ after
      → IsLive (record w { armed = before ++ after; started = w.started ++ t.path ∷ [] })
  IsLive-fire before after t e p pe g = moved (live p pe g)
    where
      moved :
          Owned p pe w
          → Owned p pe (record w { armed = before ++ after; started = w.started ++ t.path ∷ [] })
      moved (a, b, inr m) = (a, b, inr (Among-left p w.started (t.path ∷ []) m))
      moved (a, b, inl m) =
          elim (Among-taken pe.timer t before after (subst (Among pe.timer) e m)) [
            | inr m' ↦ (a, b, inl m')
            | inl e' ↦ (
              a,
              b,
              inr (
                  Among-right p w.started (t.path ∷ [])
                    (inl (cc (a, ap (λ (x : Timer). x.path) e')))),
            )
          ]

  pub IsLive-emit :
      (before after : List Text) (q : Text)
      → w.started ≡ before ++ q ∷ after
      → IsLive (emit q (record w { started = before ++ after }))
  unfolding emit
  IsLive-emit before after q e = found (get w.pending q) refl
    where
      kept :
          (p : Text) (pe : PendingEvent)
          → p ≢ q
          → Owned p pe w
          → Owned p pe (record w { started = before ++ after })
      kept p pe d (a, b, inl m) = (a, b, inl m)
      kept p pe d (a, b, inr m) = elim (Among-taken p q before after (subst (Among p) e m)) [
        | inl e' ↦ absurd (d e')
        | inr m' ↦ (a, b, inr m')
      ]

      found :
          (o : Option PendingEvent)
          → get w.pending q ≡ o
          → IsLive (emit_found q o (record w { started = before ++ after }))
      found none n p pe g = kept p pe (λ e'. cc (n, g)) (live p pe g)
      found (some pe') s p pe g = elim (Bool-cases (same q p)) [
        | inl t ↦ absurd (cc (rw (get-remove w.pending q p, t) at g))
        | inr f ↦
            let (a, b, m) =
              kept p pe (λ e'. cc (f, same_self q, ap (same q) e'))
                (live p pe (rw (get-remove w.pending q p, f) at g)) in
            (a, b, m)
      ]

  pub IsLive-debounce : (e : FileEvent) → IsLive (debounce e w)
  unfolding debounce
  IsLive-debounce e p pe g = elim (Bool-cases (same e.path p)) [
    | inl t ↦ newest (rw (get-put, t) at g) ((same_iff e.path p).0 t)
    | inr f ↦ older f (rw (get-put, f) at g)
  ]
    where
      timer : Timer
      timer = record { id = w.next_timer; path = e.path }

      newest :
          some (record { event = e; timer = record { id = w.next_timer; path = e.path } }) ≡ some pe
          → e.path ≡ p
          → Owned p pe (debounce e w)
      newest s q =
          subst (λ x. Owned p x (debounce e w)) (some_inj.0 s)
            (q, q, inl (Among-last timer (stop_pending (get w.pending e.path) w.armed)))

      unstopped :
          (t : Timer)
          → t.path ≡ p
          → p ≢ e.path
          → Among t w.armed
          → (o : Option PendingEvent) → get w.pending e.path ≡ o
          → Among t (stop_pending o w.armed)
      unstopped t q d m none n = m
      unstopped t q d m (some pe') n =
          stop_other pe'.timer t w.armed (λ c. d (cc (c, q, (live e.path pe' n).0))) m

      older : same e.path p ≡ false → get w.pending p ≡ some pe → Owned p pe (debounce e w)
      older f h =
          let (a, b, m) = live p pe h in
          (
            a,
            b,
            elim m [
              | inr m' ↦ inr m'
              | inl m' ↦ inl (
                  Among-left pe.timer _ (timer ∷ []) (
                    unstopped pe.timer a (λ c. cc (f, same_self e.path, ap (same e.path) c)) m'
                      (get w.pending e.path) refl))
            ],
          )
