-- ===== src/Time/Sleep.antt =====
-- usec_sleep comes to an end, and not before its time unless it is cut short.
use mathlib.Core.Option
use fio_ssd.Prelude.{
  arith, lt→ltb, ℕ, ◌+◌, ◌-◌, ◌^◌, ◌≤◌, ◌<◌, ◌≡◌, refl, ◌⊎◌, inl, inr, List, [], ◌∷◌, length,
  Option, some, true, false, dec_lt, dec_le, ◌∙◌, Bool-cases,
}
use fio_ssd.RandMap.{u32}
use fio_ssd.Time.{Nap, Slept, rested, cut_short, usec_spin, add_slept, request, usec_sleep}

-- Of the naps that a sleep of `usec` microseconds takes, one fails, or the job is terminated behind
-- one that leaves time to wait.
abbrev pub Interrupted : ℕ → List Nap → ℕ → Type 0
Interrupted granularity [] usec = ⊥
Interrupted granularity (nap ∷ naps) usec =
    (granularity ≤ usec)
    × ((nap.failed ≡ true)
        ⊎ ((nap.elapsed (request granularity usec) < usec)
            × ((nap.terminate ≡ true)
                ⊎ Interrupted granularity naps (usec - nap.elapsed (request granularity usec)))))

-- A sleep ends on time where it is not interrupted, and has then lasted at least `usec` microseconds;
-- it is cut short where it is interrupted, before that time.
abbrev pub Lasts : ℕ → List Nap → ℕ → Slept → Type 0
Lasts granularity naps usec (rested t) = (usec ≤ t) × ¬ Interrupted granularity naps usec
Lasts granularity naps usec (cut_short t) = (t < usec) × Interrupted granularity naps usec

-- Each nap takes time.
abbrev pub AllPass : List Nap → Type 0
AllPass [] = Unit
AllPass (nap ∷ naps) = ((req : ℕ × ℕ) → 1 ≤ nap.elapsed req) × AllPass naps

-- Some reading reaches the granularity.
abbrev pub Reaches : List ℕ → ℕ → Type 0
Reaches [] n = ⊥
Reaches (t ∷ ts) n = (n ≤ t) ⊎ Reaches ts n

usec_spin-Lasts :
    (spins : List ℕ) (usec n : ℕ)
    → usec < n
    → Reaches spins n
    → (t : ℕ) × (usec_spin spins usec ≡ some t) × (usec ≤ t)
unfolding usec_spin
usec_spin-Lasts [] usec n h r = absurd r
usec_spin-Lasts (t ∷ ts) usec n h r = elim (dec_lt t usec) [
  | yes early ↦
      let (t', e, le) =
        usec_spin-Lasts ts usec n h
          (elim r [ inl reached ↦ absurd (omega arith) | inr later ↦ later ]) in
      (t', rw (lt→ltb t usec early) e, le)
  | no late ↦ (t, ground arith, omega arith)
]

module _ (granularity : ℕ) (spins : List ℕ) (reach : Reaches spins granularity)
    (small : granularity ≤ 2 ^ 32) where
  short_uninterrupted :
      (naps : List Nap) (usec : ℕ) → usec < granularity → ¬ Interrupted granularity naps usec
  short_uninterrupted [] usec h i = i
  short_uninterrupted (nap ∷ naps) usec h i = absurd (omega (arith, i.0))

  spun :
      (naps : List Nap) (usec : ℕ)
      → usec < granularity
      → (s : Slept) × (Option.map rested (usec_spin spins (u32 usec)) ≡ some s)
        × Lasts granularity naps usec s
  spun naps usec h =
      let (t, e, le) = usec_spin-Lasts spins usec granularity h reach in
      (rested t, rw (narrow, e) refl, (le, short_uninterrupted naps usec h))
    where
      narrow : u32 usec ≡ usec
      narrow = omega (arith, small)

  -- A nap that leaves time to wait, and the sleep behind it.
  added :
      (nap : Nap) (naps : List Nap) (usec : ℕ) (out : Option Slept)
      → granularity ≤ usec
      → nap.failed ≡ false
      → nap.elapsed (request granularity usec) < usec
      → nap.terminate ≡ false
      → (s : Slept) × (out ≡ some s)
        × Lasts granularity naps (usec - nap.elapsed (request granularity usec)) s
      → (s : Slept) × (Option.map (add_slept (nap.elapsed (request granularity usec))) out ≡ some s)
        × Lasts granularity (nap ∷ naps) usec s
  added nap naps usec out long slept early go_on (rested t, e, (le, none_left)) = (
    rested (nap.elapsed (request granularity usec) + t),
    rw e refl,
    (
      omega arith,
      λ i. elim i.1 [
        | inl failed ↦ absurd (cc (slept, failed))
        | inr (l, inl stop) ↦ absurd (cc (go_on, stop))
        | inr (l, inr later) ↦ none_left later
      ],
    ),
  )
  added nap naps usec out long slept early go_on (cut_short t, e, (lt, later)) = (
    cut_short (nap.elapsed (request granularity usec) + t),
    rw e refl,
    (omega arith, (long, inr (early, inr later))),
  )

  sleeps_on :
      (nap : Nap) (naps : List Nap) (usec : ℕ)
      → granularity ≤ usec
      → nap.failed ≡ false
      → nap.elapsed (request granularity usec) < usec
      → nap.terminate ≡ false
      → usec_sleep granularity (nap ∷ naps) spins usec
        ≡ Option.map
            (add_slept (nap.elapsed (request granularity usec)))
            (usec_sleep granularity naps spins (usec - nap.elapsed (request granularity usec)))
  unfolding usec_sleep
  sleeps_on nap naps usec long slept early go_on = ground (arith, slept, go_on)

  -- Where every nap takes at least a microsecond whatever it is asked for, and the granularity is
  -- positive, at most 2 ^ 32 microseconds and reached by some reading of the spin, usec_sleep ends
  -- after as many naps as it has microseconds to wait at most. It is cut short, before its time,
  -- exactly where one of the naps it takes fails, or the job is terminated behind a nap that leaves
  -- time to wait; else it has lasted at least so long.
  pub usec_sleep-Lasts :
      (naps : List Nap) (usec : ℕ)
      → AllPass naps
      → usec ≤ length naps
      → 0 < granularity
      → (s : Slept) × (usec_sleep granularity naps spins usec ≡ some s)
        × Lasts granularity naps usec s
  unfolding usec_sleep
  usec_sleep-Lasts [] usec pass enough pos =
      rw (lt→ltb usec granularity (omega arith)) (spun [] usec (omega arith))
  usec_sleep-Lasts (nap ∷ naps) usec pass enough pos = elim (dec_lt usec granularity) [
    | yes short ↦ rw (lt→ltb usec granularity short) (spun (nap ∷ naps) usec short)
    | no long ↦
        let passed = nap.elapsed (request granularity usec) in
        let ge : granularity ≤ usec = omega arith in
        elim (Bool-cases nap.failed) [
          | inl failed ↦ (cut_short 0, ground (arith, failed), (omega arith, (ge, inl failed)))
          | inr slept ↦ elim (dec_le usec passed) [
            | yes done ↦ (
              rested passed,
              ground (arith, slept),
              (
                done,
                λ i. elim i.1 [
                  | inl failed ↦ absurd (cc (slept, failed))
                  | inr (early, rest) ↦ absurd (omega arith)
                ],
              ),
            )
            | no early ↦
                let lt : passed < usec = omega arith in
                elim (Bool-cases nap.terminate) [
                  | inl stop ↦ (
                    cut_short passed,
                    ground (arith, slept, stop),
                    (lt, (ge, inr (lt, inl stop))),
                  )
                  | inr go_on ↦
                      let rest = usec_sleep granularity naps spins (usec - passed) in
                      let (s, e, lasts) = added nap naps usec rest ge slept lt go_on (
                        usec_sleep-Lasts naps (usec - passed) pass.1
                          (omega (arith, pass.0 (request granularity usec))) pos) in
                      (s, sleeps_on nap naps usec ge slept lt go_on ∙ e, lasts)
                ]
          ]
        ]
  ]
