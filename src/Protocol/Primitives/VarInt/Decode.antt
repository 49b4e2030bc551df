-- ===== src/Protocol/Primitives/VarInt/Decode.antt =====
-- The VarInt decoders on any input, well formed or not.
use native.Mathlib.Nat.{mod-lt, one-le-pow}
use rustbound_server.Prelude.Bits.{bit_or-lt}
use rustbound_server.Prelude.{
  ℕ, zero, suc, ◌+◌, ◌*◌, ◌%◌, ◌^◌, ◌≤◌, ◌<◌, ◌≡◌, ◌⊎◌, inl, inr, refl, ap, ◌≢◌, arith, List, [],
  ◌∷◌, ◌++◌, length, Bool-cases, ◌==◌, bit_and, bit_or,
}
use rustbound_server.Prelude.Buffer.{Outcome, ok, err}
use rustbound_server.Prelude.Int.{ℤ}
use rustbound_server.Prelude.Words.{IsI32, as_signed, as_signed-IsSigned}
use rustbound_server.Protocol.Primitives.{CodecError, incomplete_input, var_int_too_long}
use rustbound_server.Protocol.Primitives.VarInt.{decode_groups, decode_var_int, signed_result}

module _ (too_long : CodecError) (width : ℕ) where
  -- Every word that the loop returns fits, and is read from 1 to `rounds` bytes in front.
  pub record Word (source : List ℕ) (rounds index result : ℕ) (tail : List ℕ) : Type 0 where
    pub word : ℕ
    pub rest : List ℕ
    pub used : List ℕ
    pub reads : decode_groups too_long (2 ^ width) source rounds index result tail ≡ ok word rest
    pub parts : tail ≡ used ++ rest
    pub some_used : 1 ≤ length used
    pub few_used : length used ≤ rounds
    pub fits : word < 2 ^ width

  decode_groups_cases :
      (source : List ℕ) (rounds index result : ℕ) (tail : List ℕ)
      → result < 2 ^ width
      → Word source rounds index result tail
        ⊎ (decode_groups too_long (2 ^ width) source rounds index result tail
            ≡ err incomplete_input source)
        ⊎ (decode_groups too_long (2 ^ width) source rounds index result tail ≡ err too_long source)
  unfolding decode_groups
  decode_groups_cases source zero index result tail h = inr (inr refl)
  decode_groups_cases source (suc rounds) index result [] h = inr (inl refl)
  decode_groups_cases source (suc rounds) index result (byte ∷ tail) h =
      elim (Bool-cases (bit_and byte 0x80 == 0)) [
        | inl last ↦ inl (record {
          word = next;
          rest = tail;
          used = byte ∷ [];
          reads = rw last refl;
          parts = refl;
          some_used = omega arith;
          few_used = omega arith;
          fits = next_fits;
        })
        | inr more ↦ elim (decode_groups_cases source rounds (index + 1) next tail next_fits) [
          | inl w ↦ inl (record {
            word = w.word;
            rest = w.rest;
            used = byte ∷ w.used;
            reads = rw more w.reads;
            parts = ap (λ (t : List ℕ). byte ∷ t) w.parts;
            some_used = omega arith;
            few_used = omega (arith, w.few_used);
            fits = w.fits;
          })
          | inr (inl e) ↦ inr (inl (rw more e))
          | inr (inr e) ↦ inr (inr (rw more e))
        ]
      ]
    where
      next : ℕ
      next = bit_or result (bit_and byte 0x7f * 2 ^ (index * 7) % 2 ^ width)

      next_fits : next < 2 ^ width
      next_fits = bit_or-lt width result _ h (mod-lt _ (one-le-pow width 2 (omega arith)))

  -- More input changes neither a word that was read nor an overlong one.
  pub decode_groups-append_ok :
      (source source' : List ℕ) (rounds index result : ℕ) (tail more : List ℕ) (word : ℕ)
      (rest : List ℕ)
      → decode_groups too_long (2 ^ width) source rounds index result tail ≡ ok word rest
      → decode_groups too_long (2 ^ width) source' rounds index result (tail ++ more)
        ≡ ok word (rest ++ more)
  unfolding decode_groups
  decode_groups-append_ok source source' zero index result tail more word rest e = cc
  decode_groups-append_ok source source' (suc rounds) index result [] more word rest e = cc
  decode_groups-append_ok source source' (suc rounds) index result (byte ∷ tail) more word rest e =
      let next = bit_or result (bit_and byte 0x7f * 2 ^ (index * 7) % 2 ^ width) in
      ground
        (arith, decode_groups-append_ok source source' rounds (index + 1) next tail more word rest)

  pub decode_groups-append_overlong :
      (source source' : List ℕ) (rounds index result : ℕ) (tail more : List ℕ)
      → too_long ≢ incomplete_input
      → decode_groups too_long (2 ^ width) source rounds index result tail ≡ err too_long source
      → decode_groups too_long (2 ^ width) source' rounds index result (tail ++ more)
        ≡ err too_long source'
  unfolding decode_groups
  decode_groups-append_overlong source source' zero index result tail more ne e = refl
  decode_groups-append_overlong source source' (suc rounds) index result [] more ne e =
      absurd (ne (ground arith))
  decode_groups-append_overlong source source' (suc rounds) index result (byte ∷ tail) more ne e =
      let next = bit_or result (bit_and byte 0x7f * 2 ^ (index * 7) % 2 ^ width) in
      ground
        (arith, decode_groups-append_overlong source source' rounds (index + 1) next tail more ne)

-- A 32-bit value that `decode_var_int` reads from the 1 to 5 bytes in front of `rest`.
pub record VarInt (input : List ℕ) : Type 0 where
  pub value : ℤ
  pub rest : List ℕ
  pub used : List ℕ
  pub reads : decode_var_int input ≡ ok value rest
  pub parts : input ≡ used ++ rest
  pub some_used : 1 ≤ length used
  pub few_used : length used ≤ 5
  pub fits : IsI32 value

-- On every input `decode_var_int` either reads a 32-bit value from 1 to 5 bytes, or fails with one
-- of two errors and leaves the input where it was.
pub decode_var_int_cases :
    (input : List ℕ)
    → VarInt input
      ⊎ (decode_var_int input ≡ err incomplete_input input)
      ⊎ (decode_var_int input ≡ err var_int_too_long input)
unfolding decode_var_int signed_result
decode_var_int_cases input =
    elim (decode_groups_cases var_int_too_long 32 input 5 0 0 input (omega arith)) [
      | inl w ↦ inl (record {
        value = as_signed (2 ^ 31) w.word;
        rest = w.rest;
        used = w.used;
        reads = rw w.reads;
        parts = w.parts;
        some_used = w.some_used;
        few_used = w.few_used;
        fits = as_signed-IsSigned (2 ^ 31) w.word w.fits;
      })
      | inr (inl e) ↦ inr (inl (rw e))
      | inr (inr e) ↦ inr (inr (rw e))
    ]

signed_result-eq_ok :
    (half : ℕ) (o : Outcome CodecError ℕ) (v : ℤ) (rest : List ℕ)
    → signed_result half o ≡ ok v rest
    → (word : ℕ) × (o ≡ ok word rest) × (as_signed half word ≡ v)
unfolding signed_result
signed_result-eq_ok half (ok word rest') v rest e = (word, cc, cc)
signed_result-eq_ok half (err x rest') v rest e = cc

signed_result-eq_err :
    (half : ℕ) (o : Outcome CodecError ℕ) (x : CodecError) (rest : List ℕ)
    → signed_result half o ≡ err x rest
    → o ≡ err x rest
unfolding signed_result
signed_result-eq_err half (ok word rest') x rest e = cc
signed_result-eq_err half (err x' rest') x rest e = cc

-- A value that was read is read again when more input has arrived.
pub decode_var_int-append_ok :
    (input more : List ℕ) (v : ℤ) (rest : List ℕ)
    → decode_var_int input ≡ ok v rest
    → decode_var_int (input ++ more) ≡ ok v (rest ++ more)
unfolding decode_var_int
decode_var_int-append_ok input more v rest e =
    let (word, reads, value) = signed_result-eq_ok (2 ^ 31) _ v rest e in
    rw
      (decode_groups-append_ok var_int_too_long 32 input (input ++ more) 5 0 0 input more word rest
        reads)
      (unfold signed_result in rw value)

pub decode_var_int-append_overlong :
    (input more : List ℕ)
    → decode_var_int input ≡ err var_int_too_long input
    → decode_var_int (input ++ more) ≡ err var_int_too_long (input ++ more)
unfolding decode_var_int
decode_var_int-append_overlong input more e =
    rw
      (decode_groups-append_overlong var_int_too_long 32 input (input ++ more) 5 0 0 input more
        (λ p. cc) (signed_result-eq_err (2 ^ 31) _ _ _ e))
      (unfold signed_result in refl)
