-- ===== src/RedMux/Interleaving.antt =====
-- Calls of linux_kernel_modules/mangoh/mangoh_red_mux.c on both switches, in any order.
use mang_oh.Prelude.{
  ℕ, ◌+◌, ◌^◌, ◌<◌, ◌≡◌, ◌≢◌, refl, sym, ap, ◌∙◌, Bool, true, false, List, [], ◌∷◌, inl, inr,
  Bool-cases, arith, length, ◌==◌,
}
use mathlib.Core.Path.{subst}
use mang_oh.Prelude.Monad.{Out, ok, err, halt, ◌>>◌}
use mang_oh.RedMux.{
  Gpio, Selection, same, level_of, Mux, State, sdio, put_sdio, pcm, put_pcm, on, select, release,
  drive, granted, sdio_select, sdio_release, pcm_select, pcm_release,
}
use mang_oh.RedMux.Holds.{IsGpio, Call, selects, releases, Holds, grants, after_call, answer, call}
use mang_oh.RedMux.Switching.{Keeps, call_lem}

pub data Op : Type 0 where
  on_sdio on_pcm : Call → Op

-- The promise: each switch answers the calls on it, whatever is asked of the other one.
unfoldable pub serve_both : List Op → Holds → Holds → List Bool × Holds × Holds
serve_both [] h i = ([], h, i)
serve_both (on_sdio c ∷ os) h i =
    let (rest, x, y) = serve_both os (after_call h c) i in (grants h c ∷ rest, x, y)
serve_both (on_pcm c ∷ os) h i =
    let (rest, x, y) = serve_both os h (after_call i c) in (grants i c ∷ rest, x, y)

-- The code: whether the call succeeded, and the state after it.
abbrev pub told : {W : Type 0} → Out (State W) (Unit {0}) → State W → Bool × State W
told (ok a t) s = (true, t)
told (err e t) s = (false, t)
told (halt f) s = (false, s)

module _ {W : Type 0} where
  told-on_sdio :
      (out : Out (Mux W) (Unit {0})) (s : State W)
      → told (on sdio put_sdio (λ _. out) s) s
        ≡ ((answer out (sdio s)).0, put_sdio s (answer out (sdio s)).1)
  told-on_sdio (ok a t) s = refl
  told-on_sdio (err e t) s = refl
  told-on_sdio (halt f) s = refl

  told-on_pcm :
      (out : Out (Mux W) (Unit {0})) (s : State W)
      → told (on pcm put_pcm (λ _. out) s) s
        ≡ ((answer out (pcm s)).0, put_pcm s (answer out (pcm s)).1)
  told-on_pcm (ok a t) s = refl
  told-on_pcm (err e t) s = refl
  told-on_pcm (halt f) s = refl

module _ (g : Gpio) where
  abbrev pub op : Op → State g.W → Bool × State g.W
  op (on_sdio (selects x)) s = told (sdio_select g x s) s
  op (on_sdio (releases x)) s = told (sdio_release x s) s
  op (on_pcm (selects x)) s = told (pcm_select g x s) s
  op (on_pcm (releases x)) s = told (pcm_release x s) s

  unfoldable pub ops : List Op → State g.W → List Bool × State g.W
  ops [] s = ([], s)
  ops (o ∷ os) s = let (a, t) = op o s in let (rest, u) = ops os t in (a ∷ rest, u)

  op-on_sdio :
      (c : Call) (s : State g.W)
      → op (on_sdio c) s ≡ ((call g c (sdio s)).0, put_sdio s (call g c (sdio s)).1)
  unfolding sdio_select sdio_release
  op-on_sdio (selects x) s = told-on_sdio (select g x (sdio s)) s
  op-on_sdio (releases x) s = told-on_sdio (release x (sdio s)) s

  op-on_pcm :
      (c : Call) (s : State g.W)
      → op (on_pcm c) s ≡ ((call g c (pcm s)).0, put_pcm s (call g c (pcm s)).1)
  unfolding pcm_select pcm_release
  op-on_pcm (selects x) s = told-on_pcm (select g x (pcm s)) s
  op-on_pcm (releases x) s = told-on_pcm (release x (pcm s)) s

module _ (g : Gpio) (ig : IsGpio g) where
  -- What a call on a switch leaves alone.
  Apart : Mux g.W → Mux g.W → Type 0
  Apart m t =
      (t.mux_gpio ≡ m.mux_gpio) × ((q : ℕ) → m.mux_gpio ≢ q → ig.level t.hw q ≡ ig.level m.hw q)

  select-Apart : (x : Selection) (m : Mux g.W) → Apart m (answer (select g x m) m).1
  unfolding select Apart
  select-Apart x m = elim (Bool-cases (same x m.current_selection)) [
    | inl e ↦ rw (select, e) (refl, λ q d. refl)
    | inr e ↦ elim (Bool-cases (m.num_requested == 0)) [
      | inl f ↦
          let d = ig.direction_output_lem m.mux_gpio (level_of x) m.hw in
          rw (select, e, f, drive, d.returned, ◌>>◌, granted)
            (refl, λ q n. ground (arith, d.result q, n))
      | inr f ↦ rw (select, e, f) (refl, λ q d. refl)
    ]
  ]

  release-Apart : (x : Selection) (m : Mux g.W) → Apart m (answer (release x m) m).1
  unfolding release Apart
  release-Apart x m = elim (Bool-cases (same x m.current_selection)) [
    | inl e ↦ elim (Bool-cases (m.num_requested == 0)) [
      | inl f ↦ rw (release, e, f) (refl, λ q d. refl)
      | inr f ↦ rw (release, e, f) (refl, λ q d. refl)
    ]
    | inr e ↦ rw (release, e) (refl, λ q d. refl)
  ]

  call-Apart : (c : Call) (m : Mux g.W) → Apart m (call g c m).1
  call-Apart (selects x) m = select-Apart x m
  call-Apart (releases x) m = release-Apart x m

  -- A switch that is out of a call keeps its holds.
  aside :
      (h : Holds) (m : Mux g.W) (w : g.W)
      → Keeps ig h m
      → ig.level w m.mux_gpio ≡ ig.level m.hw m.mux_gpio
      → Keeps ig h (record m { hw = w })
  aside h m w k e = record { at_board = k.at_board; at_iot_slot = k.at_iot_slot; pin = e ∙ k.pin }

  -- With pins that can be driven and that differ, and fewer than 2^32 holds and calls together on
  -- each switch, the two answer any interleaving of the calls on them as the promise of each has it,
  -- and each stays on the side that is held.
  pub ops-serve_both :
      (os : List Op) (h i : Holds) (s : State g.W)
      → Keeps ig h (sdio s)
      → Keeps ig i (pcm s)
      → s.sdio_mux_gpio ≢ s.pcm_mux_gpio
      → length os + s.sdio_num_requested < 2 ^ 32
      → length os + s.pcm_num_requested < 2 ^ 32
      → ((ops g os s).0 ≡ (serve_both os h i).0)
        × Keeps ig (serve_both os h i).1 (sdio (ops g os s).1)
        × Keeps ig (serve_both os h i).2 (pcm (ops g os s).1)
  unfolding ops serve_both Apart
  ops-serve_both [] h i s k l d m n = (refl, k, l)
  ops-serve_both (on_sdio c ∷ os) h i s k l d m n =
      let a =
        call_lem g ig c h s.sdio_mux_gpio s.sdio_current_selection s.sdio_num_requested s.hw k
          (omega (arith, m)) in
      let apart = subst (λ r. Apart (sdio s) r.1) a.answered (call-Apart c (sdio s)) in
      let run : op g (on_sdio c) s ≡ (grants h c, put_sdio s a.next) =
        op-on_sdio g c s ∙ ap (λ r. (r.0, put_sdio s r.1)) a.answered in
      let r =
        ops-serve_both os (after_call h c) i (put_sdio s a.next) a.keeps
          (aside i (pcm s) a.next.hw l (apart.1 s.pcm_mux_gpio d)) (λ e. d (sym apart.0 ∙ e))
          (omega (arith, a.few, m)) (omega (arith, n)) in
      rw run (ap (λ (l : List Bool). grants h c ∷ l) r.0, r.1, r.2)
  ops-serve_both (on_pcm c ∷ os) h i s k l d m n =
      let a =
        call_lem g ig c i s.pcm_mux_gpio s.pcm_current_selection s.pcm_num_requested s.hw l
          (omega (arith, n)) in
      let apart = subst (λ r. Apart (pcm s) r.1) a.answered (call-Apart c (pcm s)) in
      let run : op g (on_pcm c) s ≡ (grants i c, put_pcm s a.next) =
        op-on_pcm g c s ∙ ap (λ r. (r.0, put_pcm s r.1)) a.answered in
      let r =
        ops-serve_both os h (after_call i c) (put_pcm s a.next)
          (aside h (sdio s) a.next.hw k (apart.1 s.sdio_mux_gpio (λ e. d (sym e)))) a.keeps
          (λ e. d (e ∙ apart.0)) (omega (arith, m)) (omega (arith, a.few, n)) in
      rw run (ap (λ (l : List Bool). grants i c ∷ l) r.0, r.1, r.2)
