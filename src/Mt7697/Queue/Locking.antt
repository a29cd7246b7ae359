-- ===== src/Mt7697/Queue/Locking.antt =====
-- The mutex of the queues in linux_kernel_modules/mt7697q/queue.c: who takes it gives it back.
use mang_oh.Prelude.{
  ◌%◌, ◌^◌, ◌∙◌, ◌∷◌, [], get_or, ◌||◌, ◌&&◌, length, ℕ, ◌≡◌, refl, Option, none, some, List, Bool,
  true, false, leb, ltb, ◌==◌,
}
use mang_oh.Prelude.Monad.{M, pure, fail, eagain, ◌>>=◌, ◌>>◌}
use mang_oh.Prelude.Outcome.{Post-if}
use mang_oh.Mt7697.Bus.{Bus}
use mang_oh.Mt7697.Queue.State.{Port, set_data, bus, get_capacity, get_free_words, buff_words}
use mang_oh.Mt7697.Queue.Pointers.{
  rd_offset_addr, wr_offset_addr, data_addr, check, modify, check_state, load_words, pull_rd_ptr,
  push_rd_ptr, pull_wr_ptr, push_wr_ptr, read_state,
}
use mang_oh.Mt7697.Queue.Control.{get_s2m_mbx}
use mang_oh.Mt7697.Queue.Transfer.{
  Ret, code, Chunk, read_to_end, read_rest, read_finish, unless_failed, read_body, read,
  write_to_end, write_rest, write_finish, write_words, write_body, write,
}
use mang_oh.Mt7697.Queue.Mutex.{
  Undead, IsUndead, Mutex, Keeps, bind-Keeps, then-Keeps, if_Keeps, bus-Keeps, check-Keeps,
  locked-Keeps,
}

module _ (b : Bus) (u : IsUndead b) where
  module _ (v : Bool) where
    abbrev Pass : {A : Type 0} → M (Port b.W) A → Type 0
    Pass m = Keeps v m

    rd_keeps : (a n : ℕ) → Pass (bus (b.rd a n))
    rd_keeps a n = bus-Keeps v (b.rd a n) (u.rd_lem a n)

    wr_keeps : (a : ℕ) (ds : List ℕ) → Pass (bus (b.wr a ds))
    wr_keeps a ds = bus-Keeps v (b.wr a ds) (u.wr_lem a ds)

    -- An offset read from the co-processor, into the queue.
    pulled_keeps :
        (a : ℕ) (f : List ℕ → Port b.W → Port b.W)
        → ((ws : List ℕ) (p : Port b.W) → (f ws p).held ≡ p.held)
        → Pass (bus (b.rd a 1) >>= (λ r. check r >>= (λ ws. modify (f ws))))
    pulled_keeps a f g =
        bind-Keeps v (bus (b.rd a 1)) _ (rd_keeps a 1)
          (λ r. bind-Keeps v (check r) _ (check-Keeps v r) (λ ws q e. g ws q ∙ e))

    -- An offset written to the co-processor, and the interrupt for it.
    pushed_keeps :
        (a x bits : ℕ)
        → Pass (bus (b.wr a (x ∷ [])) >> (bus (b.wr_m2s_mbx bits) >> bus b.trigger_intr))
    pushed_keeps a x bits = then-Keeps v (bus (b.wr a (x ∷ []))) _ (wr_keeps a (x ∷ [])) (
        then-Keeps v (bus (b.wr_m2s_mbx bits)) _
          (bus-Keeps v (b.wr_m2s_mbx bits) (u.wr_m2s_mbx_lem bits))
          (bus-Keeps v b.trigger_intr u.trigger_intr_lem))

    pull_rd_ptr_keeps : Pass (pull_rd_ptr b)
    unfolding pull_rd_ptr
    pull_rd_ptr_keeps p =
        pulled_keeps (rd_offset_addr p.spec.ch)
          (λ ws q. set_data (record (q.spec.q_data) { rd_offset = get_or ws 0 0 % 2 ^ 16 }) q)
          (λ ws q. refl) p

    push_wr_ptr_keeps : Pass (push_wr_ptr b)
    unfolding push_wr_ptr
    push_wr_ptr_keeps p =
        pushed_keeps (wr_offset_addr p.spec.ch) p.spec.q_data.wr_offset (2 ^ p.spec.ch % 2 ^ 8) p

    check_state_keeps : Pass (check_state b)
    unfolding check_state
    check_state_keeps p e =
        Post-if (Mutex v) (Mutex v) Undead (p.spec.q_data.base_addr == 0) _ _ (λ _. e)
          (λ _.
            Post-if (Mutex v) (Mutex v) Undead (p.spec.q_data.flags == 0) _ _ (λ _. e)
              (λ _.
                Post-if (Mutex v) (Mutex v) Undead
                  (ltb (get_capacity b.genmask p.spec.q_data) p.spec.q_data.rd_offset
                    || ltb (get_capacity b.genmask p.spec.q_data) p.spec.q_data.wr_offset)
                  _ _ (λ _. e) (λ _. e)))

    read_to_end_keeps : (num : ℕ) → Pass (read_to_end b num)
    unfolding read_to_end
    read_to_end_keeps num p e =
        Post-if (Mutex v) (Mutex v) Undead (ltb p.spec.q_data.wr_offset p.spec.q_data.rd_offset) _ _
          (λ _. bind-Keeps v (bus (b.rd _ _)) _ (rd_keeps _ _) (λ r q e'. e') p e) (λ _. e)

    read_rest_keeps : (num : ℕ) (c : Chunk) → Pass (read_rest b num c)
    unfolding read_rest
    read_rest_keeps num c p e =
        Post-if (Mutex v) (Mutex v) Undead (ltb c.rd_words num) _ _
          (λ _. bind-Keeps v (bus (b.rd _ _)) _ (rd_keeps _ _) (λ r q e'. e') p e) (λ _. e)

    read_finish_keeps : (c : Chunk) → Pass (read_finish b c)
    unfolding read_finish
    read_finish_keeps c p e =
        Post-if (Mutex v) (Mutex v) Undead (leb (buff_words b.genmask p.spec.q_data) c.read_offset)
          _ _ (λ _. e) (λ _. e)

    unless_failed_keeps :
        (c : Chunk) (k : M (Port b.W) (Ret × List ℕ)) → Pass k → Pass (unless_failed b c k)
    unless_failed_keeps c k h = ended c.error
      where
        ended : (x : Option ℕ) → Pass (elim x [ none ↦ k | some e ↦ pure (code e, c.got) ])
        ended none = h
        ended (some e) = λ p f. f

    read_body_keeps : (num : ℕ) → Pass (read_body b num)
    unfolding read_body
    read_body_keeps num = bind-Keeps v (read_to_end b num) _ (read_to_end_keeps num) (λ c.
        unless_failed_keeps c _ (
          bind-Keeps v (read_rest b num c) _ (read_rest_keeps num c)
            (λ c'. unless_failed_keeps c' _ (read_finish_keeps c'))))

    write_to_end_keeps : (buff : List ℕ) → Pass (write_to_end b buff)
    unfolding write_to_end
    write_to_end_keeps buff p e =
        Post-if (Mutex v) (Mutex v) Undead (leb p.spec.q_data.rd_offset p.spec.q_data.wr_offset) _ _
          (λ _. then-Keeps v (bus (b.wr _ _)) _ (wr_keeps _ _) (λ q e'. e') p e) (λ _. e)

    write_rest_keeps : (r : List ℕ × ℕ) → Pass (write_rest b r)
    unfolding write_rest
    write_rest_keeps (buff, off) p e =
        Post-if (Mutex v) (Mutex v) Undead (ltb off p.spec.q_data.rd_offset && ltb 0 (length buff))
          _ _ (λ _. then-Keeps v (bus (b.wr _ _)) _ (wr_keeps _ _) (λ q e'. e') p e) (λ _. e)

    write_finish_keeps : (num : ℕ) (r : List ℕ × ℕ) → Pass (write_finish b num r)
    unfolding write_finish
    write_finish_keeps num (buff, off) p e =
        Post-if (Mutex v) (Mutex v) Undead (leb (buff_words b.genmask p.spec.q_data) off) _ _
          (λ _. e) (λ _. then-Keeps v (push_wr_ptr b) (pure _) push_wr_ptr_keeps (λ q e'. e') _ e)

    write_words_keeps : (buff : List ℕ) → Pass (write_words b buff)
    unfolding write_words
    write_words_keeps buff = bind-Keeps v (write_to_end b buff) _ (write_to_end_keeps buff) (λ r.
        bind-Keeps v (write_rest b r) _ (write_rest_keeps r)
          (λ r'. write_finish_keeps (length buff) r'))

    write_body_keeps : (buff : List ℕ) → Pass (write_body b buff)
    unfolding write_body
    write_body_keeps buff p e =
        let avail = get_free_words b.genmask p.spec.q_data in
        Post-if (Mutex v) (Mutex v) Undead (ltb avail (length buff)) _ _
          (λ _.
            then-Keeps v (pull_rd_ptr b) _ pull_rd_ptr_keeps
              (if_Keeps v (ltb avail (length buff))
                (modify (λ q. record q { blocked_writer = true }) >> fail eagain)
                (write_words b buff) (λ q f. f) (write_words_keeps buff))
              p e)
          (λ _. write_words_keeps buff p e)

  -- The functions that take the mutex.
  abbrev pub Frees : {A : Type 0} → M (Port b.W) A → Type 0
  Frees m = Keeps false m

  pub read-Frees : (num : ℕ) → Frees (read b num)
  unfolding read
  read-Frees num = locked-Keeps (read_body b num) (read_body_keeps true num)

  pub write-Frees : (buff : List ℕ) → Frees (write b buff)
  unfolding write
  write-Frees buff = locked-Keeps (write_body b buff) (write_body_keeps true buff)

  pub push_rd_ptr-Frees : Frees (push_rd_ptr b)
  unfolding push_rd_ptr
  push_rd_ptr-Frees = locked-Keeps _ (λ p.
      pushed_keeps true (rd_offset_addr p.spec.ch) p.spec.q_data.rd_offset (2 ^ p.spec.ch % 2 ^ 8)
        p)

  pub pull_wr_ptr-Frees : Frees (pull_wr_ptr b)
  unfolding pull_wr_ptr
  pull_wr_ptr-Frees = locked-Keeps _ (λ p.
      pulled_keeps true (wr_offset_addr p.spec.ch)
        (λ ws q. set_data (record (q.spec.q_data) { wr_offset = get_or ws 0 0 % 2 ^ 16 }) q)
        (λ ws q. refl) p)

  pub read_state-Frees : (ch : ℕ) → Frees (read_state b ch)
  unfolding read_state
  read_state-Frees ch = locked-Keeps _ (
      bind-Keeps true (bus (b.rd (data_addr ch) 4)) _ (rd_keeps true (data_addr ch) 4) (λ r.
        then-Keeps true (modify (λ q. set_data (load_words r.1 q.spec.q_data) q)) _ (λ q e. e)
          (then-Keeps true (check r) (check_state b) (check-Keeps true r)
            (check_state_keeps true))))

  pub get_s2m_mbx-Frees : Frees (get_s2m_mbx b)
  unfolding get_s2m_mbx
  get_s2m_mbx-Frees = locked-Keeps _ (
      bind-Keeps true (bus b.rd_s2m_mbx) _ (bus-Keeps true b.rd_s2m_mbx u.rd_s2m_mbx_lem) (λ x.
        then-Keeps true (bus (b.clr_s2m_mbx x)) (pure x)
          (bus-Keeps true (b.clr_s2m_mbx x) (u.clr_s2m_mbx_lem x)) (λ q e. e)))
