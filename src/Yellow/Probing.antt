-- ===== src/Yellow/Probing.antt =====
-- What the probe of linux_kernel_modules/mangoh/mangoh_yellow.c leaves held.
use mang_oh.Prelude.{
  ℕ, ◌≡◌, ◌⊎◌, refl, inl, inr, Bool, true, false, List, [], ◌∷◌, if◌then◌else◌, arith,
}
use mang_oh.Prelude.Monad.{M, fail, enodev, ◌>>◌}
use mang_oh.Prelude.Outcome.{Post, Post-then, Post-weaken}
use mang_oh.Board.{
  primary, Info, at24, pca954x, Device, eeprom, i2c_switch, expander, Rev, unknown, dv2, dv3, dv5,
  dv6, rev_1_0, Call, Kernel, State, tell, get_adapter, map_device,
}
use mang_oh.Board.Ledger.{Resource, Holds, Released, Unset, Never, occurs}
use mang_oh.Board.Steps.{map_device-Unset, got, clients-unset, flag-unset}
use mang_oh.Board.Removal.{remove-Released, safe_unregister_device-Unregisters}
use mang_oh.Board.{safe_unregister_device}
use mang_oh.Yellow.{
  sensors, base_devices, remove, check_rev, check_board, msleep, run_setup, eeprom_setup,
  map_eeprom, downstream, map_devices, probe,
}
use mang_oh.Board.Neutral.{Neutral-Stage}
use mang_oh.Yellow.Neutral.{setup-Neutral}
use mang_oh.Yellow.Attaching.{yellow, behind, At, downstream_lem}

module _ (n : Resource → ℕ) where
  -- A probe that fails before it has the switch: the devices behind it are not there.
  abbrev pub Early : State → Type 0
  Early s = Holds yellow expander n 1 s × Unset behind (expander ∷ []) s

  abbrev pub Ended : ℕ → State → Type 0
  Ended e s = Released n 0 s ⊎ Early s

  rev_lem :
      (rev : Rev) (s : State)
      → At n 1 (i2c_switch ∷ behind) (expander ∷ []) s
      → Post (λ _. At n 1 (i2c_switch ∷ behind) (expander ∷ [])) Ended Never (check_rev rev s)
  rev_lem unknown s (l, ((u, us), v)) = inr (l, (us, v))
  rev_lem dv2 s (l, ((u, us), v)) = inr (l, (us, v))
  rev_lem dv3 s h = h
  rev_lem dv5 s (l, ((u, us), v)) = inr (l, (us, v))
  rev_lem dv6 s (l, ((u, us), v)) = inr (l, (us, v))
  rev_lem rev_1_0 s h = h

  module _ (k : Kernel) where
    early_step :
        (es fs : List Device) (m rest : M State (Unit {0})) (s : State)
        → Post (λ _. At n 1 es (expander ∷ [])) Ended Never (m s)
        → ((t : State)
            → At n 1 es (expander ∷ []) t
            → Post (λ _. Holds yellow expander n 0) Ended Never (rest t))
        → Post (λ _. Holds yellow expander n 0) Ended Never ((m >> rest) s)
    early_step es fs m rest s h g =
        Post-then Ended Never m rest s (λ _. At n 1 es (expander ∷ []))
          (λ _. Holds yellow expander n 0) h (λ _ t. g t)

    -- A device before the adapters of the switch.
    early_device :
        (info : Info) (d : Device) (es : List Device) (s : State)
        → occurs d yellow ≡ 1
        → occurs d es ≡ 0
        → ((t : State) → Unset es (expander ∷ []) t → Unset behind (expander ∷ []) t)
        → At n 1 (d ∷ es) (expander ∷ []) s
        → Post (λ _. At n 1 es (expander ∷ [])) Ended Never (map_device k primary info d s)
    early_device info d es s e f g h =
        Post-weaken (map_device k primary info d s) (λ _. At n 1 es (expander ∷ []))
          (λ _. At n 1 es (expander ∷ [])) (λ _. At n 1 es (expander ∷ [])) Never (λ _ _ x. x)
          (λ _ t x. inr (x.0, g t x.1)) (λ _ x. x)
          (map_device-Unset yellow expander n k primary info d 1 es (expander ∷ []) s e f h)

    map_eeprom_lem :
        (s : State)
        → At n 1 (eeprom ∷ i2c_switch ∷ behind) (expander ∷ []) s
        → Post (λ _. At n 1 (i2c_switch ∷ behind) (expander ∷ [])) Ended Never (map_eeprom k s)
    unfolding map_eeprom
    map_eeprom_lem s h =
        Post-then Ended Never (map_device k primary at24 eeprom) (run_setup k) s
          (λ _. At n 1 (i2c_switch ∷ behind) (expander ∷ []))
          (λ _. At n 1 (i2c_switch ∷ behind) (expander ∷ []))
          (early_device at24 eeprom (i2c_switch ∷ behind) s refl refl (λ t x. (x.0.1, x.1)) h)
          (λ _ t g.
            Neutral-Stage yellow expander n 1 (i2c_switch ∷ behind) (expander ∷ []) t
              (if k.calls_setup t.log then eeprom_setup k t else t) (setup-Neutral k t) g)

    map_devices_lem :
        (s : State)
        → At n 1 (eeprom ∷ i2c_switch ∷ behind) (expander ∷ []) s
        → Post (λ _. Holds yellow expander n 0) Ended Never (map_devices k s)
    unfolding map_devices
    map_devices_lem s h =
        early_step (eeprom ∷ i2c_switch ∷ behind) [] msleep _ s ((λ r. omega (arith, h.0 r)), h.1)
          (λ t g.
            early_step (i2c_switch ∷ behind) [] (map_eeprom k) _ t (map_eeprom_lem t g) (λ u f.
              early_step (i2c_switch ∷ behind) [] check_board _ u (rev_lem u.board_rev u f) (λ v j.
                early_step behind [] (map_device k primary pca954x i2c_switch) (downstream k) v
                  (early_device pca954x i2c_switch behind v refl refl (λ _ x. x) j)
                  (λ w l.
                    Post-weaken (downstream k w) (λ _. Holds yellow expander n 0)
                      (λ _. Holds yellow expander n 0) (λ _. Released n 0) Never (λ _ _ x. x)
                      (λ _ _ x. inl x) (λ _ x. x) (downstream_lem n k w l)))))

    nothing_held :
        (s : State) → Released n 0 s → Unset yellow (expander ∷ []) s → Holds yellow expander n 0 s
    nothing_held s l (u, (v, w)) = λ r. omega (
      arith,
      l r,
      clients-unset s.client yellow r u,
      flag-unset yellow expander n (s.registered expander) r v,
    )

    probed :
        (found : Bool) (s : State)
        → Holds yellow expander n 0 s
        → Unset yellow (expander ∷ []) s
        → Post
            (λ _. Holds yellow expander n 0)
            Ended
            Never
            ((if found then map_devices k else fail enodev)
              (tell (Call.i2c_get_adapter primary found) s))
    probed true s h (u, v) =
        let (a, (b, (c, (d, (e, (f, (g, (i, j)))))))) = u in
        map_devices_lem (tell (Call.i2c_get_adapter primary true) s) (
          got yellow expander n primary true 0 (eeprom ∷ i2c_switch ∷ behind) (expander ∷ []) s
            (h, ((i, (g, (f, (a, (e, (c, (d, (b, tt)))))))), v)))
    probed false s h (u, (v, w)) = inl (λ r. omega (
      arith,
      h r,
      clients-unset s.client yellow r u,
      flag-unset yellow expander n (s.registered expander) r v,
    ))

    -- A probe whose data name nothing ends, whatever the kernel answers. If it succeeds, what its data
    -- name is what it holds. If it fails, it holds nothing; or it fails before it has the switch, and
    -- what is left is what its data name, which is nothing behind the switch, and a reference to the
    -- primary adapter.
    pub probe_ends :
        (s : State)
        → Released n 0 s
        → Unset yellow (expander ∷ []) s
        → Post (λ _. Holds yellow expander n 0) Ended Never (probe k s)
    unfolding probe get_adapter
    probe_ends s l u = probed (k.get_adapter primary s.log) s (nothing_held s l u) u

    -- A probe whose data name nothing, followed by the removal if it succeeds, holds nothing at the end;
    -- or the probe fails before it has the switch.
    pub probe-remove_ends :
        (s : State)
        → Released n 0 s
        → Unset yellow (expander ∷ []) s
        → Post (λ _. Released n 0) Ended Never ((probe k >> remove) s)
    unfolding remove
    probe-remove_ends s l u =
        Post-then Ended Never (probe k) remove s (λ _. Holds yellow expander n 0)
          (λ _. Released n 0) (probe_ends s l u)
          (λ _ t h.
            remove-Released safe_unregister_device safe_unregister_device-Unregisters sensors
              expander base_devices n 0 t h)
