-- ===== src/RedMux/Switching.antt =====
-- The switches of linux_kernel_modules/mangoh/mangoh_red_mux.c against what they promise: a side
-- stays selected while somebody holds it.
use mang_oh.Prelude.{
  ℕ, zero, suc, ◌+◌, ◌%◌, ◌^◌, ◌≤◌, ◌<◌, ◌≡◌, refl, ap, Bool, true, false, List, [], ◌∷◌, arith,
  length, if◌then◌else◌,
}
use mang_oh.Prelude.Monad.{>>-run}
use mang_oh.RedMux.{
  Gpio, Selection, board, iot_slot, same, level_of, Mux, select, release, granted, drive,
}
use mang_oh.RedMux.Holds.{
  IsGpio, Call, selects, releases, Holds, other, grants, change, after_call, serve, answer, call,
  calls,
}

-- A switch whose holds are all on the side that it is set to, as its pin is.
pub record Keeps {g : Gpio} (ig : IsGpio g) (h : Holds) (m : Mux g.W) : Type 0 where
  pub at_board : h board ≡ (if same board m.current_selection then m.num_requested else 0)
  pub at_iot_slot : h iot_slot ≡ (if same iot_slot m.current_selection then m.num_requested else 0)
  pub pin : ig.level m.hw m.mux_gpio ≡ level_of m.current_selection

-- A call that answers as the promise has it, and keeps the switch and its holds together.
pub record Answered {g : Gpio} (ig : IsGpio g) (h : Holds) (c : Call) (m : Mux g.W) : Type 0 where
  pub next : Mux g.W
  pub answered : call g c m ≡ (grants h c, next)
  pub keeps : Keeps ig (after_call h c) next
  pub few : next.num_requested ≤ suc m.num_requested

abbrev mux : {W : Type 0} → ℕ → Selection → ℕ → W → Mux W
mux p s n w = record { mux_gpio = p; current_selection = s; num_requested = n; hw = w }

module _ (g : Gpio) (ig : IsGpio g) where
  refused :
      (h : Holds) (c : Call) (m : Mux g.W)
      → Keeps ig h m
      → call g c m ≡ (false, m)
      → grants h c ≡ false
      → Answered ig h c m
  refused h c m k e f = record {
    next = m;
    answered = rw (f) e;
    keeps = rw (f) k;
    few = omega arith;
  }

  granted_call :
      (h : Holds) (c : Call) (m m' : Mux g.W)
      → call g c m ≡ (true, m')
      → grants h c ≡ true
      → Keeps ig (change h c) m'
      → m'.num_requested ≤ suc m.num_requested
      → Answered ig h c m
  granted_call h c m m' e f k l = record {
    next = m';
    answered = rw (f) e;
    keeps = rw (f) k;
    few = l;
  }

  again :
      (s : Selection) (h : Holds) (p n : ℕ) (w : g.W)
      → Keeps ig h (mux p s n w)
      → suc n < 2 ^ 32
      → Answered ig h (selects s) (mux p s n w)
  unfolding select
  again board h p n w k l =
      granted_call h (selects board) (mux p board n w) (mux p board ((n + 1) % 2 ^ 32) w) refl
        (ground (arith, k))
        (record { at_board = ground (arith, k); at_iot_slot = k.at_iot_slot; pin = k.pin })
        (omega arith)
  again iot_slot h p n w k l =
      granted_call h (selects iot_slot) (mux p iot_slot n w) (mux p iot_slot ((n + 1) % 2 ^ 32) w)
        refl (ground (arith, k))
        (record { at_board = k.at_board; at_iot_slot = ground (arith, k); pin = k.pin })
        (omega arith)

  moved :
      (s : Selection) (h : Holds) (p : ℕ) (w : g.W)
      → Keeps ig h (mux p (other s) 0 w)
      → Answered ig h (selects s) (mux p (other s) 0 w)
  unfolding select
  moved board h p w k =
      let d = ig.direction_output_lem p 1 w in
      granted_call h (selects board) (mux p iot_slot 0 w) (mux p board 1 d.next)
        (ap (λ r. answer r (mux p iot_slot 0 w))
          (>>-run (drive g 1) (granted g board) {s = mux p iot_slot 0 w}
            {t = mux p iot_slot 0 d.next} (rw (drive, d.returned) refl)))
        (ground (arith, k))
        (record {
          at_board = ground (arith, k);
          at_iot_slot = k.at_iot_slot;
          pin = ground (arith, d.result p);
        })
        (omega arith)
  moved iot_slot h p w k =
      let d = ig.direction_output_lem p 0 w in
      granted_call h (selects iot_slot) (mux p board 0 w) (mux p iot_slot 1 d.next)
        (ap (λ r. answer r (mux p board 0 w))
          (>>-run (drive g 0) (granted g iot_slot) {s = mux p board 0 w} {t = mux p board 0 d.next}
            (rw (drive, d.returned) refl)))
        (ground (arith, k))
        (record {
          at_board = k.at_board;
          at_iot_slot = ground (arith, k);
          pin = ground (arith, d.result p);
        })
        (omega arith)

  given_back :
      (s : Selection) (h : Holds) (p n : ℕ) (w : g.W)
      → Keeps ig h (mux p s (suc n) w)
      → Answered ig h (releases s) (mux p s (suc n) w)
  unfolding release
  given_back board h p n w k =
      granted_call h (releases board) (mux p board (suc n) w) (mux p board n w) (ground arith)
        (ground (arith, k))
        (record { at_board = ground (arith, k); at_iot_slot = k.at_iot_slot; pin = k.pin })
        (omega arith)
  given_back iot_slot h p n w k =
      granted_call h (releases iot_slot) (mux p iot_slot (suc n) w) (mux p iot_slot n w)
        (ground arith) (ground (arith, k))
        (record { at_board = k.at_board; at_iot_slot = ground (arith, k); pin = k.pin })
        (omega arith)

  -- Every call, on whatever side the switch is.
  pub call_lem :
      (c : Call) (h : Holds) (p : ℕ) (s : Selection) (n : ℕ) (w : g.W)
      → Keeps ig h (mux p s n w)
      → suc n < 2 ^ 32
      → Answered ig h c (mux p s n w)
  unfolding select release
  call_lem (selects board) h p board n w k l = again board h p n w k l
  call_lem (selects iot_slot) h p iot_slot n w k l = again iot_slot h p n w k l
  call_lem (selects board) h p iot_slot zero w k l = moved board h p w k
  call_lem (selects iot_slot) h p board zero w k l = moved iot_slot h p w k
  call_lem (selects board) h p iot_slot (suc n) w k l =
      refused h (selects board) (mux p iot_slot (suc n) w) k (ground arith) (ground (arith, k))
  call_lem (selects iot_slot) h p board (suc n) w k l =
      refused h (selects iot_slot) (mux p board (suc n) w) k (ground arith) (ground (arith, k))
  call_lem (releases board) h p board zero w k l =
      refused h (releases board) (mux p board 0 w) k refl (ground (arith, k))
  call_lem (releases iot_slot) h p iot_slot zero w k l =
      refused h (releases iot_slot) (mux p iot_slot 0 w) k refl (ground (arith, k))
  call_lem (releases board) h p board (suc n) w k l = given_back board h p n w k
  call_lem (releases iot_slot) h p iot_slot (suc n) w k l = given_back iot_slot h p n w k
  call_lem (releases board) h p iot_slot n w k l =
      refused h (releases board) (mux p iot_slot n w) k refl (ground (arith, k))
  call_lem (releases iot_slot) h p board n w k l =
      refused h (releases iot_slot) (mux p board n w) k refl (ground (arith, k))

  -- With pins that can be driven, and fewer than 2^32 holds and calls together, a switch answers any
  -- sequence of calls as its promise has it: a side is granted exactly while nobody holds the other
  -- one, and is given back exactly while it is held. After it the switch and its pin are on the side
  -- that is held.
  pub calls-serve :
      (cs : List Call) (h : Holds) (m : Mux g.W)
      → Keeps ig h m
      → length cs + m.num_requested < 2 ^ 32
      → ((calls g cs m).0 ≡ (serve cs h).0) × Keeps ig (serve cs h).1 (calls g cs m).1
  unfolding calls serve
  calls-serve [] h m k l = (refl, k)
  calls-serve (c ∷ cs) h m k l =
      let a = call_lem c h m.mux_gpio m.current_selection m.num_requested m.hw k (omega arith) in
      let r = calls-serve cs (after_call h c) a.next a.keeps (omega (arith, a.few)) in
      rw (a.answered) (ap (λ (l : List Bool). grants h c ∷ l) r.0, r.1)
