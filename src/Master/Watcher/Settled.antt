-- ===== src/Master/Watcher/Settled.antt =====
-- internal/master/watcher/watcher.go: once the files are left alone, the goroutines come to rest, and
-- by then the reader of Events has every event that was pending.
use craft_stack.Prelude.{
  ℕ, zero, suc, ◌+◌, ◌*◌, ◌≤◌, ◌≡◌, refl, sym, ap, List, [], ◌∷◌, ◌++◌, Text, Option, none, some,
  inl, inr, ◌⊎◌, length, length-append, same, same_iff, Bool-cases, Option-cases, arith,
}
use mathlib.Core.Path.{subst}
use mathlib.Core.Option.{some_inj}
use craft_stack.Prelude.Among.{Among, Among-left, Among-right, Among-taken, List-cases}
use craft_stack.Prelude.Dict.{get, get-remove}
use craft_stack.Master.Watcher.{FileEvent, Timer, PendingEvent, Watcher, emit, emit_found}
use craft_stack.Master.Watcher.Runs.{
  Internal, fire, take_mutex, send, take_one, IsReached, Quiet, still, step,
}
use craft_stack.Master.Watcher.Live.{HasTrigger}
use craft_stack.Master.Watcher.Reached.{IsSound, Internal-IsSound, IsReached-IsSound}

-- The steps that the goroutines have before them, at most
abbrev pub work : Watcher → ℕ
work w = 4 * length w.armed + 3 * length w.started + 2 * length w.blocked + length w.event_ch

length-taken : {A : Type 0} (xs ys : List A) (x : A) → length (xs ++ x ∷ ys) ≡ length (xs ++ ys) + 1
length-taken [] ys x = omega arith
length-taken (z ∷ xs) ys x = omega (arith, length-taken xs ys x)

emit_found-work :
    (p : Text) (w : Watcher) (o : Option PendingEvent) → work (emit_found p o w) ≤ work w + 2
emit_found-work p w none = omega arith
emit_found-work p w (some pe) = omega (arith, length-append w.blocked (pe.event ∷ []))

pub Internal-work : {w u : Watcher} → Internal w u → work u + 1 ≤ work w
unfolding emit
Internal-work {w} (fire before after t e r) = omega (
  arith,
  ap work r,
  ap length e,
  length-taken before after t,
  length-append w.started (t.path ∷ []),
)
Internal-work {w} (take_mutex before after p e r) = omega (
  arith,
  ap work r,
  ap length e,
  length-taken before after p,
  emit_found-work p (record w { started = before ++ after }) (get w.pending p),
)
Internal-work {w} (send before after e h l r) =
    omega (
      arith,
      ap work r,
      ap length h,
      length-taken before after e,
      length-append w.event_ch (e ∷ []),
    )
Internal-work {w} (take_one e rest h r) = omega (arith, ap work r, ap length h)

Quiet-work : {w u : Watcher} (n : ℕ) → Quiet w n u → n + work u ≤ work w
Quiet-work n still = omega arith
Quiet-work n (step q i) = omega (arith, Quiet-work _ q, Internal-work i)

-- Nothing is left for the goroutines to do.
abbrev pub IsIdle : Watcher → Type 0
IsIdle w = (w.armed ≡ []) × (w.started ≡ []) × (w.blocked ≡ []) × (w.event_ch ≡ [])

-- The reader can always take an event, and with an empty channel everyone else can move.
IsIdle-or_step : (w : Watcher) → IsIdle w ⊎ ((u : Watcher) × Internal w u)
IsIdle-or_step w = elim (List-cases w.event_ch) [
  | inr (e, rest, h) ↦ inr (_, take_one e rest h refl)
  | inl c ↦ elim (List-cases w.blocked) [
    | inr (e, rest, h) ↦ inr (_, send [] rest e h (omega (arith, ap length c)) refl)
    | inl b ↦ elim (List-cases w.started) [
      | inr (p, rest, h) ↦ inr (_, take_mutex [] rest p h refl)
      | inl s ↦ elim (List-cases w.armed) [
        | inr (t, rest, h) ↦ inr (_, fire [] rest t h refl)
        | inl a ↦ inl (a, s, b, c)
      ]
    ]
  ]
]

-- Where an event of a path can be before the reader has it, and then
abbrev Travels : Text → FileEvent → Watcher → Type 0
Travels p e w =
    ((pe : PendingEvent) × (get w.pending p ≡ some pe) × (pe.event ≡ e))
    ⊎ (Among e w.blocked ⊎ (Among e w.event_ch ⊎ Among e w.taken))

emit-Travels :
    (p : Text) (e : FileEvent) (q : Text) (w : Watcher) (o : Option PendingEvent)
    → get w.pending q ≡ o
    → Travels p e w
    → Travels p e (emit_found q o w)
emit-Travels p e q w none h t = t
emit-Travels p e q w (some pe') h (inr (inl m)) = inr (inl (Among-left e w.blocked _ m))
emit-Travels p e q w (some pe') h (inr (inr t)) = inr (inr t)
emit-Travels p e q w (some pe') h (inl (pe, g, s)) = elim (Bool-cases (same q p)) [
  | inr f ↦ inl (pe, rw (get-remove w.pending q p, f) g, s)
  | inl y ↦
      let both : some pe' ≡ some pe = cc (g, h, (same_iff q p).0 y) in
      let here : pe'.event ≡ e = cc (s, some_inj.0 both) in
      inr (inl (Among-right e w.blocked (pe'.event ∷ []) (inl (sym here))))
]

Internal-Travels :
    (p : Text) (e : FileEvent) {w u : Watcher} → Internal w u → Travels p e w → Travels p e u
unfolding emit
Internal-Travels p e {w} (fire before after t h r) m = subst (Travels p e) (sym r) m
Internal-Travels p e {w} (take_mutex before after q h r) m =
    subst (Travels p e) (sym r) (emit-Travels p e q _ (get w.pending q) refl m)
Internal-Travels p e {w} (send before after x h l r) m = subst (Travels p e) (sym r) (sent m)
  where
    sent :
        Travels p e w
        → Travels p e (record w { blocked = before ++ after; event_ch = w.event_ch ++ x ∷ [] })
    sent (inl t) = inl t
    sent (inr (inr (inl c))) = inr (inr (inl (Among-left e w.event_ch (x ∷ []) c)))
    sent (inr (inr (inr k))) = inr (inr (inr k))
    sent (inr (inl b)) = elim (Among-taken e x before after (subst (Among e) h b)) [
      | inl y ↦ inr (inr (inl (Among-right e w.event_ch (x ∷ []) (inl y))))
      | inr b' ↦ inr (inl b')
    ]
Internal-Travels p e {w} (take_one x rest h r) m = subst (Travels p e) (sym r) (received m)
  where
    received : Travels p e w → Travels p e (record w { event_ch = rest; taken = w.taken ++ x ∷ [] })
    received (inl t) = inl t
    received (inr (inl b)) = inr (inl b)
    received (inr (inr (inr k))) = inr (inr (inr (Among-left e w.taken (x ∷ []) k)))
    received (inr (inr (inl c))) = elim (subst (Among e) h c) [
      | inl y ↦ inr (inr (inr (Among-right e w.taken (x ∷ []) (inl y))))
      | inr c' ↦ inr (inr (inl c'))
    ]

Quiet-Travels :
    (p : Text) (e : FileEvent) {w u : Watcher} {n : ℕ} → Quiet w n u → Travels p e w → Travels p e u
Quiet-Travels p e still t = t
Quiet-Travels p e (step q i) t = Internal-Travels p e i (Quiet-Travels p e q t)

Quiet-IsSound : {w u : Watcher} {n : ℕ} → Quiet w n u → IsSound w → IsSound u
Quiet-IsSound still s = s
Quiet-IsSound (step q i) s = Internal-IsSound i (Quiet-IsSound q s)

no_trigger : (p : Text) (t : Timer) (u : Watcher) → IsIdle u → HasTrigger p t u → ⊥
no_trigger p t u (a, s, b, c) (inl m) = subst (Among t) a m
no_trigger p t u (a, s, b, c) (inr m) = subst (Among p) s m

arrived :
    (p : Text) (e : FileEvent) (u : Watcher)
    → IsSound u
    → IsIdle u
    → Travels p e u
    → Among e u.taken
arrived p e u s idle (inl (pe, g, h)) =
    let (a, b, m) = s.live p pe g in absurd (no_trigger p pe.timer u idle m)
arrived p e u s (a, st, b, c) (inr (inl m)) = absurd (subst (Among e) b m)
arrived p e u s (a, st, b, c) (inr (inr (inl m))) = absurd (subst (Among e) c m)
arrived p e u s idle (inr (inr (inr m))) = m

none_pending : (p : Text) (u : Watcher) → IsSound u → IsIdle u → get u.pending p ≡ none
none_pending p u s idle = elim (Option-cases (get u.pending p)) [
  | inl n ↦ n
  | inr (pe, g) ↦ let (a, b, m) = s.live p pe g in absurd (no_trigger p pe.timer u idle m)
]

-- From a watcher that was reached, when the goroutines alone have run until no timer is armed, none of
-- them waits and the channel is empty, the reader of Events has received the event of every path that
-- was pending, and that path is pending no more.
pub Quiet-delivers :
    (w u : Watcher) (n : ℕ)
    → IsReached w
    → Quiet w n u
    → IsIdle u
    → (p : Text) (pe : PendingEvent) → get w.pending p ≡ some pe
    → Among pe.event u.taken × (get u.pending p ≡ none)
Quiet-delivers w u n r q idle p pe g =
    let s = Quiet-IsSound q (IsReached-IsSound r) in
    (
      arrived p pe.event u s idle (Quiet-Travels p pe.event q (inl (pe, g, refl))),
      none_pending p u s idle,
    )

Settles : Watcher → ℕ → Watcher → Type 0
Settles w n u = (m : ℕ) × (v : Watcher) × Quiet w m v × IsIdle v × (n ≤ m) × (m ≤ work w)

Settles-within : (k : ℕ) (w u : Watcher) (n : ℕ) → work u ≤ k → Quiet w n u → Settles w n u
unfolding Settles
Settles-within zero w u n h q = elim (IsIdle-or_step u) [
  | inl idle ↦ (n, u, q, idle, omega arith, omega (arith, Quiet-work n q))
  | inr (v, i) ↦ absurd (omega (arith, Internal-work i))
]
Settles-within (suc k) w u n h q = elim (IsIdle-or_step u) [
  | inl idle ↦ (n, u, q, idle, omega arith, omega (arith, Quiet-work n q))
  | inr (v, i) ↦
      let (m, z, q', idle, a, b) =
        Settles-within k w v (n + 1) (omega (arith, Internal-work i)) (step q i) in
      (m, z, q', idle, omega arith, b)
]

-- Any steps of the goroutines can be continued to a state in which no timer is armed, none of them waits
-- and the channel is empty, and all these steps together are at most four for each armed timer, three
-- for each goroutine that waits for the mutex, two for each that waits to send, and one for each event
-- in the channel, as they were at first.
pub Quiet-settles :
    (w u : Watcher) (n : ℕ)
    → Quiet w n u
    → (m : ℕ) × (v : Watcher) × Quiet w m v × IsIdle v × (n ≤ m) × (m ≤ work w)
unfolding Settles
Quiet-settles w u n q = Settles-within (work u) w u n (omega arith) q
