-- ===== src/Protocol/Play/RoundTrip/Slots.antt =====
-- What the slots write, their decoder reads back, with the fuel that their NBT needs.
use mathlib.Core.Path.{subst}
use rustbound_server.Prelude.{
  ℕ, ◌<◌, ◌≤◌, ◌≡◌, ◌^◌, ◌++◌, ◌∷◌, [], List, length, Bool, true, false, refl, arith, append-nil,
  sym, All,
}
use rustbound_server.Prelude.Int.{ℤ}
use rustbound_server.Prelude.Words.{IsI8, IsI32, as_unsigned, as_signed-as_unsigned}
use rustbound_server.Prelude.Buffer.{Action, ok, write, map_err}
use rustbound_server.Protocol.Primitives.{CodecError}
use rustbound_server.Protocol.Primitives.VarInt.{encode_var_int, decode_var_int}
use rustbound_server.Protocol.Primitives.Fixed.{encode_bool, decode_bool, encode_i8, decode_i8}
use rustbound_server.Protocol.Play.{PlayError}
use rustbound_server.Protocol.Play.RoundTrip.{
  Sends, write-Sends, then-Sends, last-Sends, lift-Sends, Addressed,
}
use rustbound_server.Container.{Slot, empty, with_nbt}
use rustbound_server.Protocol.Play.Nbt.{Fuelled, failed, read_nbt_compound}
use rustbound_server.Protocol.Play.Frame.{put_each}
use rustbound_server.Protocol.Play.Codec.Slots.{
  encode_slot, decode_slot, put_present, put_nbt, decode_present, nbt_field, nbt,
  fuelled_from_codec, get_each,
}
use rustbound_server.Protocol.Play.Nbt.Tree.{NbtEntries, AreEntries, size, compound, compound_bytes}
use rustbound_server.Protocol.Play.Nbt.Read.{read_nbt_compound-compound_bytes}
use rustbound_server.Protocol.Primitives.VarInt.Encode.{var_int_bytes, encode_var_int-append}
use rustbound_server.Protocol.Primitives.VarInt.RoundTrip.{decode_var_int-bytes}
use rustbound_server.Protocol.Primitives.Fixed.RoundTrip.{decode_bool-bytes}

-- A compound that the fuel is enough for.
pub record IsCompound (fuel : ℕ) (bytes : List ℕ) : Type 0 where
  pub name : List ℕ
  pub entries : NbtEntries
  pub short_name : length name < 2 ^ 16
  pub well_formed : AreEntries entries
  pub enough : size (compound entries) ≤ fuel
  pub parts : bytes ≡ compound_bytes name entries

read-IsCompound :
    (fuel : ℕ) (bytes rest : List ℕ)
    → IsCompound fuel bytes
    → Addressed (bytes ++ rest)
    → read_nbt_compound fuel (bytes ++ rest) ≡ ok bytes rest
read-IsCompound fuel bytes rest c h = rw (c.parts) (
    read_nbt_compound-compound_bytes c.name c.entries rest fuel c.short_name c.well_formed
      (rw (← c.parts) h) c.enough)

pub compound-Sends :
    (fuel : ℕ) (bytes : List ℕ)
    → IsCompound fuel bytes
    → Sends (write (λ output. output ++ bytes)) (nbt (read_nbt_compound fuel)) bytes
compound-Sends fuel bytes c = record {
  sent = λ output output' e.
      (bytes, cc e, λ rest h. rw (read-IsCompound fuel bytes rest c h, map_err));
}

abbrev pub IsNbtField : ℕ → List ℕ → Type 0
IsNbtField fuel [] = Unit {0}
IsNbtField fuel (b ∷ bs) = IsCompound fuel (b ∷ bs)

tag_first : (fuel b : ℕ) (bs : List ℕ) → IsCompound fuel (b ∷ bs) → b ≡ 10
unfolding compound_bytes
tag_first fuel b bs c = cc (c.parts)

nbt_field-Sends :
    (fuel : ℕ) (bytes : List ℕ)
    → IsNbtField fuel bytes
    → Sends (put_nbt bytes) (nbt_field fuel) bytes
unfolding put_nbt nbt_field
nbt_field-Sends fuel [] h = record { sent = λ output output' e. (0 ∷ [], cc e, λ rest a. refl) }
nbt_field-Sends fuel (b ∷ bs) c = record {
  sent = λ output output' e. (
    b ∷ bs,
    cc e,
    λ rest h. ground (arith, tag_first fuel b bs c, read-IsCompound fuel (b ∷ bs) rest c h),
  );
}

-- A slot that is absent is the empty one.
abbrev pub IsPresent : ℕ → Bool → Slot → Type 0
IsPresent fuel true slot = IsI32 slot.item_id × IsI8 slot.count × IsNbtField fuel slot.nbt
IsPresent fuel false slot = slot ≡ empty

read_bool :
    (v : Bool)
    → Sends (write (encode_bool v)) (map_err {F = Fuelled CodecError} failed decode_bool) v
unfolding encode_bool
read_bool v =
    lift-Sends failed
      (write-Sends (encode_bool v) (encode_bool v []) (λ output. refl) (decode_bool-bytes v))

read_var_int :
    (v : ℤ)
    → IsI32 v
    → Sends (write (encode_var_int v)) (map_err {F = Fuelled CodecError} failed decode_var_int) v
read_var_int v h = lift-Sends failed (
    write-Sends (encode_var_int v) (var_int_bytes v) (encode_var_int-append v)
      (λ rest. decode_var_int-bytes v rest h))

read_i8 :
    (v : ℤ)
    → IsI8 v
    → Sends (write (encode_i8 v)) (map_err {F = Fuelled CodecError} failed decode_i8) v
unfolding encode_i8 decode_i8
read_i8 v h = lift-Sends failed (
    write-Sends (encode_i8 v) (as_unsigned (2 ^ 8) v ∷ []) (λ output. refl)
      (λ rest. rw (as_signed-as_unsigned (2 ^ 7) v h) refl))

with_nbt_eq : (slot : Slot) → slot.present ≡ true → slot ≡ with_nbt slot.item_id slot.count slot.nbt
with_nbt_eq slot p i = record {
  present = p i;
  item_id = slot.item_id;
  count = slot.count;
  nbt = slot.nbt;
}

present-Sends :
    (fuel : ℕ) (present : Bool) (slot : Slot)
    → slot.present ≡ present
    → IsPresent fuel present slot
    → Sends (put_present present slot) (decode_present fuel present) slot
unfolding put_present decode_present
present-Sends fuel true slot p (i, c, n) =
    subst (λ s. Sends (put_present true slot) (decode_present fuel true) s)
      (sym (with_nbt_eq slot p))
      (then-Sends _ (read_var_int slot.item_id i) (
        then-Sends _ (read_i8 slot.count c) (
          last-Sends (λ bytes. with_nbt slot.item_id slot.count bytes)
            (nbt_field-Sends fuel slot.nbt n))))
present-Sends fuel false slot p h = record {
  sent = λ output output' e. ([], cc (e, append-nil output), λ rest a. rw h refl);
}

codec_slot-Sends :
    (fuel : ℕ) (slot : Slot)
    → IsPresent fuel slot.present slot
    → Sends (encode_slot slot) (decode_slot fuel) slot
unfolding encode_slot decode_slot
codec_slot-Sends fuel slot h =
    then-Sends (decode_present fuel) (read_bool slot.present)
      (present-Sends fuel slot.present slot refl h)

pub slot-Sends :
    (fuel : ℕ) (slot : Slot)
    → IsPresent fuel slot.present slot
    → Sends (encode_slot slot) (nbt (decode_slot fuel)) slot
slot-Sends fuel slot h = lift-Sends fuelled_from_codec (codec_slot-Sends fuel slot h)

-- A list, item by item.
pub each-Sends {ℓ} :
    {E : Type 0} {A : Type ℓ} {P : A → Type 0} (put : A → Action PlayError (Unit {0}))
    (get_one : Action E A)
    → ((x : A) → P x → Sends (put x) get_one x)
    → (xs : List A) → All P xs
    → Sends (put_each put xs) (get_each (length xs) get_one) xs
unfolding put_each get_each
each-Sends put get_one one [] h = record {
  sent = λ output output' e. ([], cc (e, append-nil output), λ rest a. refl);
}
each-Sends {P} put get_one one (x ∷ xs) (h, hs) =
    then-Sends _ (one x h) (last-Sends _ (each-Sends {P = P} put get_one one xs hs))
