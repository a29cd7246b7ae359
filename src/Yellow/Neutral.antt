-- ===== src/Yellow/Neutral.antt =====
-- The calls of linux_kernel_modules/mangoh/mangoh_yellow.c that take and give back nothing.
use mang_oh.Prelude.{ℕ, refl, true, Option, none, some, List, if◌then◌else◌}
use mang_oh.Board.{Rev, dv3, rev_1_0, Call, Kernel, State, strstarts, tell}
use mang_oh.Board.Neutral.{Neutral, Neutral-refl, Neutral-trans, Neutral-tell, Neutral-if}
use mang_oh.Yellow.{
  identify, is_unknown, is_blank, production_first_line, dv3_string, read_eeprom, eeprom_setup,
}

identify-Neutral : (bytes : List ℕ) (s : State) → Neutral s (identify bytes s)
unfolding identify
identify-Neutral bytes s =
    Neutral-if (is_blank bytes) s (tell Call.mem_write (record s { board_rev = rev_1_0 })) _
      (Neutral-tell Call.mem_write s (record s { board_rev = rev_1_0 }) refl refl
        (with_rev rev_1_0))
      (Neutral-if (strstarts bytes production_first_line) s (record s { board_rev = rev_1_0 }) _
        (with_rev rev_1_0)
        (Neutral-if (strstarts bytes dv3_string) s (record s { board_rev = dv3 }) s (with_rev dv3)
          (Neutral-refl s)))
  where
    with_rev : (rev : Rev) → Neutral s (record s { board_rev = rev })
    with_rev rev = record {
      client_lem = refl;
      registered_lem = refl;
      acquired_lem = λ r. refl;
      released_lem = λ r. refl;
    }

read-Neutral :
    (read : Option (List ℕ)) (s : State)
    → Neutral s (elim read [
      | none ↦ s
      | some bytes ↦ identify bytes (record s { eeprom_read_success = true })
    ])
read-Neutral none s = Neutral-refl s
read-Neutral (some bytes) s =
    let t = record s { eeprom_read_success = true } in
    let f = identify-Neutral bytes t in
    record {
      client_lem = f.client_lem;
      registered_lem = f.registered_lem;
      acquired_lem = f.acquired_lem;
      released_lem = f.released_lem;
    }

module _ (k : Kernel) where
  pub eeprom_setup-Neutral : (s : State) → Neutral s (eeprom_setup k s)
  unfolding eeprom_setup
  eeprom_setup-Neutral s =
      let t = tell Call.kmalloc s in
      let u = tell Call.mem_read t in
      let f = Neutral-tell Call.kmalloc s s refl refl (Neutral-refl s) in
      let g = Neutral-tell Call.mem_read s t refl refl f in
      Neutral-if (is_unknown s.board_rev) s
        (if k.kmalloc s.log then tell Call.kfree (read_eeprom k u) else t) s
        (Neutral-if (k.kmalloc s.log) s (tell Call.kfree (read_eeprom k u)) t
          (Neutral-tell Call.kfree s (read_eeprom k u) refl refl
            (Neutral-trans s u (read_eeprom k u) g (read-Neutral (k.mem_read u.log) u)))
          f)
        (Neutral-refl s)

  pub setup-Neutral : (s : State) → Neutral s (if k.calls_setup s.log then eeprom_setup k s else s)
  setup-Neutral s =
      Neutral-if (k.calls_setup s.log) s (eeprom_setup k s) s (eeprom_setup-Neutral s)
        (Neutral-refl s)
