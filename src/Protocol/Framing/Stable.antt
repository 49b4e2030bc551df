-- ===== src/Protocol/Framing/Stable.antt =====
-- What `decode_frame` refuses, it refuses whatever bytes arrive later.
use rustbound_server.Prelude.{
  ℕ, ◌≡◌, arith, List, ◌++◌, length-append, append_assoc, Option-cases, inl, inr, some,
}
use rustbound_server.Prelude.Int.{ℤ, pos, negsuc}
use rustbound_server.Prelude.Buffer.{ok, err, split_front, split_front_parts, split_front-append}
use rustbound_server.Protocol.Primitives.{var_int_too_long, incomplete_input}
use rustbound_server.Protocol.Primitives.VarInt.{decode_var_int}
use rustbound_server.Protocol.Primitives.VarInt.Decode.{
  decode_var_int_cases, decode_var_int-append_ok, decode_var_int-append_overlong,
}
use rustbound_server.Protocol.Framing.{FramingError, decode_frame, decode_after_length, decode_body}

split_front-append_some :
    (n : ℕ) (xs ys front back : List ℕ)
    → split_front n xs ≡ some (front, back)
    → split_front n (xs ++ ys) ≡ some (front, back ++ ys)
split_front-append_some n xs ys front back e =
    let (parts, size) = split_front_parts n xs front back e in
    rw (parts, append_assoc front back ys, ← size) (split_front-append front (back ++ ys))

module _ (maximum : ℕ) (source more : List ℕ) (x : FramingError) where
  negative_stable :
      (n : ℕ) (tail rest : List ℕ)
      → decode_after_length maximum source (ok (negsuc n) tail) ≡ err x rest
      → decode_after_length maximum (source ++ more) (ok (negsuc n) (tail ++ more))
        ≡ err x (source ++ more)
  unfolding decode_after_length
  negative_stable n tail rest e = ground (arith, length-append source more, length-append tail more)

  length_stable :
      (n : ℕ) (tail rest : List ℕ)
      → decode_after_length maximum source (ok (pos n) tail) ≡ err x rest
      → decode_after_length maximum (source ++ more) (ok (pos n) (tail ++ more))
        ≡ err x (source ++ more)
  unfolding decode_after_length decode_body
  length_stable n tail rest e = elim (Option-cases (split_front n tail)) [
    | inl short ↦ ground (arith, short, length-append source more, length-append tail more)
    | inr ((body, later), found) ↦ ground (
      arith,
      found,
      split_front-append_some n tail more body later found,
      length-append source more,
      length-append tail more,
    )
  ]

overlong_stable :
    (maximum : ℕ) (input more rest : List ℕ) (x : FramingError)
    → decode_after_length maximum input (err var_int_too_long input) ≡ err x rest
    → decode_after_length maximum (input ++ more) (err var_int_too_long (input ++ more))
      ≡ err x (input ++ more)
unfolding decode_after_length
overlong_stable maximum input more rest x e = cc

lacking_not_refused :
    (maximum : ℕ) (input rest : List ℕ) (x : FramingError)
    → ¬ (decode_after_length maximum input (err incomplete_input input) ≡ err x rest)
unfolding decode_after_length
lacking_not_refused maximum input rest x e = cc

-- An input that `decode_frame` refuses with a framing error is refused with the same error whatever
-- bytes are added behind it, and the input stays where it was.
pub decode_frame_refused :
    (maximum : ℕ) (input more rest : List ℕ) (x : FramingError)
    → decode_frame maximum input ≡ err x rest
    → decode_frame maximum (input ++ more) ≡ err x (input ++ more)
unfolding decode_frame
decode_frame_refused maximum input more rest x e = elim (decode_var_int_cases input) [
  | inl w ↦ go w.value w.rest w.reads
  | inr (inl lacks) ↦ absurd (lacking_not_refused maximum input rest x (rw lacks at e))
  | inr (inr long) ↦
      rw (decode_var_int-append_overlong input more long)
        (overlong_stable maximum input more rest x (rw long at e))
]
  where
    go :
        (v : ℤ) (tail : List ℕ)
        → decode_var_int input ≡ ok v tail
        → decode_after_length maximum (input ++ more) (decode_var_int (input ++ more))
          ≡ err x (input ++ more)
    go (pos n) tail reads =
        rw (decode_var_int-append_ok input more (pos n) tail reads)
          (length_stable maximum input more x n tail rest (rw reads at e))
    go (negsuc n) tail reads =
        rw (decode_var_int-append_ok input more (negsuc n) tail reads)
          (negative_stable maximum input more x n tail rest (rw reads at e))
