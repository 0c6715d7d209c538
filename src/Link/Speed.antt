-- ===== src/Link/Speed.antt =====
-- What `get_link_speed` and `wait_for_link` of src/igb.rs find, and that the waiting ends.
use igb_driver.Prelude.{
  ℕ, zero, suc, ◌≤◌, ◌<◌, ◌≡◌, ◌≢◌, ◌⊎◌, ◌↔◌, refl, ap, List, ◌∷◌, bit_and, ◌==◌, ==_iff, arith,
  Bool-cases, inl, inr,
}
use igb_driver.Outcome.{Outcome, ok, err, panic, hang, Returns, Returns-map, then_run, pure, ◌>>=◌}
use igb_driver.Registers.{igb_status, igb_links_up}
use igb_driver.Device.{Platform, Event, read, waited, World}
use igb_driver.Device.Access.{Mapped, at_trace}
use igb_driver.Link.{speed_of, get_link_speed, poll_link, wait_for_link}

-- The speed is 0 exactly if the link bit is clear, and otherwise 10, 100 or 1000.
pub speed_of_lem :
    (s : ℕ)
    → ((speed_of s ≡ 0) ↔ (bit_and s igb_links_up ≡ 0))
      × ((speed_of s ≡ 0) ⊎ (speed_of s ≡ 10) ⊎ (speed_of s ≡ 100) ⊎ (speed_of s ≡ 1000))
unfolding speed_of
speed_of_lem s = ground arith

module _ (hw : Platform) where
  abbrev pub IsUp : List Event → Type 0
  IsUp t = bit_and (hw.reg t igb_status) igb_links_up ≢ 0

  -- The events of `n` readings of the status that did not find the link, and the waits after them.
  unfoldable pub waits : ℕ → List Event → List Event
  waits zero t = t
  waits (suc n) t = waits n (waited 1000 ∷ read igb_status ∷ t)

  -- `n` waits were enough, or all the `limit` were used.
  pub record Polled (limit : ℕ) (w w' : World) : Type 0 where
    pub rounds : ℕ
    pub bounded : rounds ≤ limit
    pub down_before : (k : ℕ) → k < rounds → ¬ IsUp (waits k w.trace)
    pub up_or_late : (rounds ≡ limit) ⊎ IsUp (waits rounds w.trace)
    pub events : w' ≡ at_trace hw w (read igb_status ∷ waits rounds w.trace)

  get_link_speed_lem :
      (w : World)
      → Mapped w igb_status
      → get_link_speed hw w
        ≡ ok (speed_of (hw.reg w.trace igb_status)) (at_trace hw w (read igb_status ∷ w.trace))
  unfolding get_link_speed
  get_link_speed_lem w m = ground arith

  one_more :
      (limit : ℕ) (w w' : World)
      → ¬ IsUp w.trace
      → Polled limit (at_trace hw w (waited 1000 ∷ read igb_status ∷ w.trace)) w'
      → Polled (suc limit) w w'
  unfolding waits
  one_more limit w w' down p = record {
    rounds = suc p.rounds;
    bounded = omega (arith, p.bounded);
    down_before = λ k h. below k h;
    up_or_late = elim p.up_or_late [ inl e ↦ inl (ap suc e) | inr u ↦ inr u ];
    events = p.events;
  }
    where
      below : (k : ℕ) → k < suc p.rounds → ¬ IsUp (waits k w.trace)
      below zero h = down
      below (suc k) h = p.down_before k (omega arith)

  poll_link-Polled :
      (left : ℕ) (w : World)
      → Mapped w igb_status
      → Returns
          (λ _ w'. Polled left w w')
          (poll_link hw left
            (speed_of (hw.reg w.trace igb_status))
            (at_trace hw w (read igb_status ∷ w.trace)))
  unfolding poll_link waits
  poll_link-Polled zero w m = record {
    rounds = 0;
    bounded = omega arith;
    down_before = λ k h. absurd (omega arith);
    up_or_late = inl refl;
    events = refl;
  }
  poll_link-Polled (suc left) w m =
      let speed = speed_of (hw.reg w.trace igb_status) in
      let law = (speed_of_lem (hw.reg w.trace igb_status)).0 in
      elim (Bool-cases (speed == 0)) [
        | inr e ↦
            rw (e, poll_link)
              (record {
                rounds = 0;
                bounded = omega arith;
                down_before = λ k h. absurd (omega arith);
                up_or_late = inr (λ z. ground (arith, e, law.1 z));
                events = refl;
              })
        | inl e ↦
            let next = at_trace hw w (waited 1000 ∷ read igb_status ∷ w.trace) in
            let down = law.0 ((==_iff speed 0).0 e) in
            rw (e, poll_link, get_link_speed_lem next m)
              (Returns-map
                (poll_link hw left (speed_of (hw.reg next.trace igb_status))
                  (at_trace hw next (read igb_status ∷ next.trace)))
                (λ _ w' p. one_more left w w' (λ up. up down) p) (poll_link-Polled left next m))
      ]

  -- Waiting for the link ends: after at most ten waits of a second, and before that with the first
  -- reading of the status that finds the link up. The last reading is for the log, and nothing but
  -- the status was read.
  pub wait_for_link-ends :
      (w : World)
      → Mapped w igb_status
      → Returns
          (λ _ w'. (v : World) × Polled 10 w v × (w' ≡ at_trace hw v (read igb_status ∷ v.trace)))
          (wait_for_link hw w)
  unfolding wait_for_link
  wait_for_link-ends w m = rw (get_link_speed_lem w m) (
      logged
        (poll_link hw 10 (speed_of (hw.reg w.trace igb_status))
          (at_trace hw w (read igb_status ∷ w.trace)))
        (poll_link-Polled 10 w m))
    where
      logged :
          (r : Outcome World ℕ)
          → Returns (λ _ v. Polled 10 w v) r
          → Returns {A = Unit {0}}
              (λ _ w'.
                (v : World) × Polled 10 w v × (w' ≡ at_trace hw v (read igb_status ∷ v.trace)))
              (then_run r (λ _. get_link_speed hw >>= λ _. pure tt))
      logged (ok s v) p =
          let inside : Mapped v igb_status = rw p.events m in
          rw (get_link_speed_lem v inside) (v, p, refl)
      logged (err e v) p = absurd p
      logged panic p = absurd p
      logged hang p = absurd p
