-- ===== src/Protocol/Play/RoundTrip.antt =====
-- What the round trips of the Play packets share: a write and the read that takes it back, in chains,
-- and the frame around them. The children state the fields and the packets.
pub mod Fields
pub mod Movement
pub mod Player
pub mod World
pub mod Block
pub mod Entity
pub mod Session
pub mod Window
pub mod Registry
pub mod Slots
pub mod Containers
pub mod Join
pub mod Chunk
pub mod Codecs
pub mod Parts
pub mod TwoWay
pub mod Trailing
pub mod WithNbt
use mathlib.Core.Path.{subst}
use rustbound_server.Protocol.Framing.Encode.{encode_frame-eq_ok, length-body_bytes}
use rustbound_server.Prelude.{
  length, length-append, ap, ◌<◌, ◌^◌, ℕ, ◌≡◌, ◌++◌, [], List, arith, append_assoc, append-nil, ◌∙◌,
}
use rustbound_server.Prelude.Int.{ℤ, eqb_ℤ_refl}
use rustbound_server.Prelude.Words.{IsI32}
use rustbound_server.Prelude.Buffer.{
  Action, ok, write, done, map_err, with_body, ◌>>=◌, ◌>>◌, >>=-ok, >>=-eq_ok, map_err-eq_ok,
  with_body-eq_ok,
}
use rustbound_server.Protocol.Play.{PlayError, from_framing}
use rustbound_server.Protocol.Play.Frame.{decode_play_with, send_play, finish, decode_play_framed}
use rustbound_server.Protocol.Play.Types.{PlayDecodeOutcome, PlayPacket}
use rustbound_server.Protocol.Framing.{encode_frame}
use rustbound_server.Protocol.Framing.Decode.{decode_frame-encode_frame}

-- An input that `usize` and `isize` address.
abbrev pub Addressed : List ℕ → Type 0
Addressed bytes = length bytes < 2 ^ 63

-- Whatever a write appends where it succeeds, the read takes back off as the value `a`.
pub record Sends {ℓ} {E : Type 0} {A : Type ℓ} (w : Action PlayError (Unit {0})) (r : Action E A)
    (a : A) : Type ℓ where
  pub sent :
      (output output' : List ℕ)
      → w output ≡ ok tt output'
      → (bytes : List ℕ) × (output' ≡ output ++ bytes)
        × ((rest : List ℕ) → Addressed (bytes ++ rest) → r (bytes ++ rest) ≡ ok a rest)

module _ {ℓ} {E : Type 0} {A : Type ℓ} {r : Action E A} {a : A} where
  -- A write that cannot fail.
  pub write-Sends :
      (f : List ℕ → List ℕ) (bytes : List ℕ)
      → ((output : List ℕ) → f output ≡ output ++ bytes)
      → ((rest : List ℕ) → r (bytes ++ rest) ≡ ok a rest)
      → Sends (write f) r a
  write-Sends f bytes appends reads = record {
    sent = λ output output' e. (bytes, cc (e, appends output), λ rest h. reads rest);
  }

  -- One write in front of others, and one read in front of others.
  pub then-Sends {κ} :
      {B : Type κ} {w v : Action PlayError (Unit {0})} {b : B} (k : A → Action E B)
      → Sends w r a
      → Sends v (k a) b
      → Sends (w >> v) (r >>= k) b
  then-Sends {w} {v} k first later = record {
    sent = λ output output' e.
        let (u, middle, written, following) = >>=-eq_ok w (λ _. v) output output' tt e in
        let (front, parts, reads) = first.sent output middle written in
        let (back, parts', reads') = later.sent middle output' following in
        (
          front ++ back,
          cc (parts, parts', append_assoc output front back),
          λ rest h.
              let split = append_assoc front back rest in
              let later_h : Addressed (back ++ rest) =
                omega (arith, h, ap length split, length-append front (back ++ rest)) in
              rw split (>>=-ok r k (reads (back ++ rest) (rw (← split) h)) ∙ reads' rest later_h),
        );
  }

  -- The last of them.
  pub last-Sends {κ} :
      {B : Type κ} {w : Action PlayError (Unit {0})} (c : A → B)
      → Sends w r a
      → Sends w (r >>= λ x. done (c x)) (c a)
  last-Sends c only = record {
    sent = λ output output' e.
        let (bytes, parts, reads) = only.sent output output' e in
        (bytes, parts, λ rest h. >>=-ok r (λ x. done (c x)) (reads rest h));
  }

-- The same where the read takes all that is left.
pub record SendsAll {ℓ} {E : Type 0} {A : Type ℓ} (w : Action PlayError (Unit {0})) (r : Action E A)
    (a : A) : Type ℓ where
  pub sent :
      (output output' : List ℕ)
      → w output ≡ ok tt output'
      → (bytes : List ℕ) × (output' ≡ output ++ bytes) × (Addressed bytes → r bytes ≡ ok a [])

module _ {ℓ} {E : Type 0} {A : Type ℓ} {r : Action E A} {a : A} where
  pub Sends-SendsAll : {w : Action PlayError (Unit {0})} → Sends w r a → SendsAll w r a
  Sends-SendsAll h = record {
    sent = λ output output' e.
        let (bytes, parts, reads) = h.sent output output' e in
        (
          bytes,
          parts,
          λ h'. subst (λ b. r b ≡ ok a []) (append-nil bytes) (reads [] (rw (append-nil bytes) h')),
        );
  }

  pub then-SendsAll {κ} :
      {B : Type κ} {w v : Action PlayError (Unit {0})} {b : B} (k : A → Action E B)
      → Sends w r a
      → SendsAll v (k a) b
      → SendsAll (w >> v) (r >>= k) b
  then-SendsAll {w} {v} k first later = record {
    sent = λ output output' e.
        let (u, middle, written, following) = >>=-eq_ok w (λ _. v) output output' tt e in
        let (front, parts, reads) = first.sent output middle written in
        let (back, parts', reads') = later.sent middle output' following in
        (
          front ++ back,
          cc (parts, parts', append_assoc output front back),
          λ h. >>=-ok r k (reads back h) ∙ reads' (omega (arith, h, length-append front back)),
        );
  }

-- A reader whose errors are passed on.
pub lift-Sends {ℓ} :
    {E F : Type 0} {A : Type ℓ} {w : Action PlayError (Unit {0})} {r : Action E A} {a : A}
    (f : E → F)
    → Sends w r a
    → Sends w (map_err f r) a
lift-Sends {r} f h = record {
  sent = λ output output' e.
      let (bytes, parts, reads) = h.sent output output' e in
      (bytes, parts, λ rest h'. rw (reads rest h', map_err));
}

-- A packet whose fields are read back as they were written goes through its frame, with what follows
-- the frame left in the input.
pub decode_play-send_play :
    {E : Type 0} {body : Action PlayError (Unit {0})} {fields : Action E PlayPacket}
    {packet : PlayPacket} (lift : PlayError → E) (id : ℤ) (maximum : ℕ) (wire rest : List ℕ)
    → IsI32 id
    → SendsAll body fields packet
    → with_body body (send_play id maximum) [] ≡ ok tt wire
    → decode_play_with lift id fields maximum (wire ++ rest)
      ≡ ok (PlayDecodeOutcome.complete packet) rest
unfolding decode_play_with decode_play_framed finish
decode_play-send_play {body} {fields} {packet} lift id maximum wire rest hi h e =
    let (built, written, sent) = with_body-eq_ok body (send_play id maximum) [] wire tt e in
    let framed = map_err-eq_ok from_framing (encode_frame id built maximum) [] wire tt sent in
    let (bytes, parts, reads) = h.sent [] built written in
    let fits = encode_frame-eq_ok id built maximum [] wire framed in
    let read : fields built ≡ ok packet [] =
      rw parts (reads (omega (arith, fits, length-body_bytes id built, ap length parts))) in
    ground
      (arith, decode_frame-encode_frame id built maximum wire rest hi framed, eqb_ℤ_refl id, read)
