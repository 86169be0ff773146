-- ===== src/Compat/Adapt/Constants.antt =====
-- The loop over a pool of constants: that it comes to the end of a pool, and what it adds up.
use move_language_server.Base.{
  ℕ, zero, suc, ap, ◌∙◌, true, false, ◌*◌, lt→ltb, le→ltb, ◌+◌, ◌%◌, ◌≤◌, ◌<◌, ◌≡◌, refl, arith,
  some,
}
use move_language_server.Base.Text.{Bytes}
use move_language_server.Compat.Mutator.{Mutator, make_diff}
use move_language_server.Compat.Adapt.{
  Reader, u32_mod, const_loop, handle_const_pool, make_uleb128_diff, filler,
}

module _ (reader : Reader) where
  open reader use {load_signature_token, load_constant_size, is_address}

  -- A token takes a byte or more, and a size is read forwards.
  pub record Advances : Type 0 where
    pub token_forward :
        (bytes : Bytes) (c : ℕ) (r : reader.SignatureToken × ℕ)
        → load_signature_token bytes c ≡ some r
        → c < r.1
    pub size_forward :
        (bytes : Bytes) (c : ℕ) (r : ℕ × ℕ) → load_constant_size bytes c ≡ some r → c ≤ r.1

  module _ (advances : Advances) (bytes : Bytes) where
    -- Constants that can be read one after the other up to the end of their table, by the number of those
    -- of the type of addresses.
    pub data Constants (end_offset : ℕ) : ℕ → ℕ → Type 0 where
      finished : {cursor : ℕ} → end_offset ≤ cursor → Constants end_offset cursor 0
      address_constant :
          {cursor k : ℕ} (token : reader.SignatureToken × ℕ) (size : ℕ × ℕ)
          → cursor < end_offset
          → load_signature_token bytes cursor ≡ some token
          → load_constant_size bytes token.1 ≡ some size
          → is_address token.0 ≡ true
          → Constants end_offset (size.1 + size.0 % u32_mod) k
          → Constants end_offset cursor (suc k)
      other_constant :
          {cursor k : ℕ} (token : reader.SignatureToken × ℕ) (size : ℕ × ℕ)
          → cursor < end_offset
          → load_signature_token bytes cursor ≡ some token
          → load_constant_size bytes token.1 ≡ some size
          → is_address token.0 ≡ false
          → Constants end_offset (size.1 + size.0 % u32_mod) k
          → Constants end_offset cursor k

    module _ (written : (n : ℕ) → (b : Bytes) × (reader.write_u64_as_uleb128 n ≡ some b))
        (dfin : reader.dfin_addr_len ≡ 20) where
      resized :
          (start_pos end_pos n : ℕ) (mutator : Mutator)
          → (m : Mutator) × (make_uleb128_diff reader start_pos end_pos n mutator ≡ some m)
      unfolding make_uleb128_diff
      resized start_pos end_pos n mutator =
          let (b, e) = written n in (make_diff mutator start_pos end_pos b, rw e refl)

      const_loop_returns :
          (end_offset fuel cursor k added : ℕ) (mutator : Mutator)
          → Constants end_offset cursor k
          → added < u32_mod
          → 0 < fuel
          → end_offset < cursor + fuel
          → (m : Mutator) × (const_loop reader bytes end_offset fuel cursor added mutator
              ≡ some ((added + 4 * k) % u32_mod, m))
      unfolding const_loop
      const_loop_returns end_offset zero cursor k added mutator constants small p h =
          absurd (omega arith)
      const_loop_returns end_offset (suc fuel) cursor _ added mutator (finished out) small p h =
          let same : added ≡ (added + 4 * 0) % u32_mod = omega arith in
          (mutator, rw (le→ltb cursor end_offset out) (ap (λ a. some (a, mutator)) same))
      const_loop_returns end_offset (suc fuel) cursor _ added mutator
            (address_constant {k = k} token size inside e e' a rest) small p h =
          let forward = advances.token_forward bytes cursor token e in
          let behind = advances.size_forward bytes token.1 size e' in
          let (m, resize) = resized token.1 size.1 ((size.0 % u32_mod + 4) % u32_mod) mutator in
          let (m', run) =
            const_loop_returns end_offset fuel _ k ((added + 4) % u32_mod)
              (make_diff m size.1 size.1 filler) rest (omega arith) (omega arith) (omega arith) in
          let sum : ((added + 4) % u32_mod + 4 * k) % u32_mod ≡ (added + 4 * suc k) % u32_mod =
            omega arith in
          (
            m',
            rw (lt→ltb cursor end_offset inside, e, e', a, dfin)
                (rw resize (run ∙ ap (λ a. some (a, m')) sum)),
          )
      const_loop_returns end_offset (suc fuel) cursor k added mutator
            (other_constant token size inside e e' a rest) small p h =
          let forward = advances.token_forward bytes cursor token e in
          let behind = advances.size_forward bytes token.1 size e' in
          let (m', run) =
            const_loop_returns end_offset fuel _ k added mutator rest small (omega arith)
              (omega arith) in
          (m', rw (lt→ltb cursor end_offset inside, e, e', a) run)

      -- A pool of constants that can be read, with `k` addresses among them, is read to its end with fuel
      -- of more units than the pool has bytes: the answer is there, and the pool grows by four
      -- bytes for each address, modulo 2^32. A token takes a byte or more, sizes are read
      -- forwards, every number can be written, and addresses have 20 bytes.
      pub handle_const_pool_returns :
          (fuel position len k : ℕ) (mutator : Mutator)
          → Constants (position + len) position k
          → len < fuel
          → (m : Mutator) × (handle_const_pool reader bytes fuel position len mutator
              ≡ some (4 * k % u32_mod, m))
      unfolding handle_const_pool
      handle_const_pool_returns fuel position len k mutator constants h =
          let (m, run) =
            const_loop_returns (position + len) fuel position k 0 mutator constants (omega arith)
              (omega arith) (omega arith) in
          let sum : (0 + 4 * k) % u32_mod ≡ 4 * k % u32_mod = omega arith in
          (m, run ∙ ap (λ a. some (a, m)) sum)
