-- ===== src/Tests/Wire.antt =====
-- A stand-in for the encodings of payment requests: each part after its length, and what it reads
-- back.
pub mod Payments
use keyserver_rust.Prelude.{
  ℕ, zero, suc, ◌≡◌, refl, ap, ◌∙◌, Option, none, some, List, [], ◌∷◌, ◌++◌, length, take, drop,
  take-append, drop-append,
}
use keyserver_rust.Prelude.Bytes.{Bytes}
use keyserver_rust.Models.{Output, PaymentDetails, PaymentRequest}

-- A part in front of the rest, and the part read with the rest.
abbrev pub put_bytes : Bytes → Bytes → Bytes
put_bytes b rest = length b ∷ (b ++ rest)

abbrev pub get_bytes : Bytes → Bytes × Bytes
get_bytes [] = ([], [])
get_bytes (n ∷ s) = (take n s, drop n s)

unfoldable pub put_option : Option Bytes → Bytes → Bytes
put_option none rest = 0 ∷ rest
put_option (some b) rest = 1 ∷ put_bytes b rest

unfoldable pub get_option : Bytes → Option Bytes × Bytes
get_option [] = (none, [])
get_option (zero ∷ s) = (none, s)
get_option (suc n ∷ s) = (some (get_bytes s).0, (get_bytes s).1)

unfoldable pub of_number : Option ℕ → ℕ
of_number none = 0
of_number (some n) = suc n

unfoldable pub to_number : ℕ → Option ℕ
to_number zero = none
to_number (suc n) = some n

unfoldable pub put_outputs : List Output → Bytes → Bytes
unfolding of_number
put_outputs [] rest = rest
put_outputs (o ∷ os) rest = of_number o.amount ∷ put_bytes o.script (put_outputs os rest)

unfoldable pub get_outputs : ℕ → Bytes → List Output × Bytes
unfolding to_number
get_outputs zero s = ([], s)
get_outputs (suc n) [] = ([], [])
get_outputs (suc n) (a ∷ s) =
    let (script, s₁) = get_bytes s in
    let (os, s₂) = get_outputs n s₁ in (record { amount = to_number a; script = script } ∷ os, s₂)

pub get_bytes-put_bytes : (b rest : Bytes) → get_bytes (put_bytes b rest) ≡ (b, rest)
get_bytes-put_bytes b rest =
    rw (take-append (length b) b rest refl, drop-append (length b) b rest refl) refl

pub get_option-put_option :
    (o : Option Bytes) (rest : Bytes) → get_option (put_option o rest) ≡ (o, rest)
unfolding get_option put_option
get_option-put_option none rest = refl
get_option-put_option (some b) rest = ap (λ r. (some r.0, r.1)) (get_bytes-put_bytes b rest)

to_number-of_number : (a : Option ℕ) → to_number (of_number a) ≡ a
unfolding to_number of_number
to_number-of_number none = refl
to_number-of_number (some n) = refl

output_lem :
    (o : Output)
    → ◌≡◌ {A = Output} (record { amount = to_number (of_number o.amount); script = o.script }) o
output_lem o = ap (λ a. record o { amount = a }) (to_number-of_number o.amount)

pub get_outputs-put_outputs :
    (os : List Output) (rest : Bytes) → get_outputs (length os) (put_outputs os rest) ≡ (os, rest)
unfolding get_outputs put_outputs
get_outputs-put_outputs [] rest = refl
get_outputs-put_outputs (o ∷ os) rest =
    ap
      (λ r. (
        record { amount = to_number (of_number o.amount); script = r.0 }
            ∷ (get_outputs (length os) r.1).0,
        (get_outputs (length os) r.1).1,
      ))
      (get_bytes-put_bytes o.script (put_outputs os rest))
    ∙ ap (λ r. (record { amount = to_number (of_number o.amount); script = o.script } ∷ r.0, r.1))
        (get_outputs-put_outputs os rest)
    ∙ ap (λ t. (t ∷ os, rest)) (output_lem o)

unfoldable pub encode_details : PaymentDetails → Bytes
unfolding put_option put_outputs
encode_details d = put_option d.network (
    put_option d.memo (
      put_option d.payment_url (
        put_option d.merchant_data
          (d.time ∷ of_number d.expires ∷ length d.outputs ∷ put_outputs d.outputs []))))

unfoldable pub decode_tail :
    Option Bytes → Option Bytes → Option Bytes → Option Bytes → Bytes → Option PaymentDetails
unfolding get_outputs
decode_tail network memo url md (t ∷ e ∷ n ∷ s) = some (record {
  network = network;
  outputs = (get_outputs n s).0;
  time = t;
  expires = to_number e;
  memo = memo;
  payment_url = url;
  merchant_data = md;
})
decode_tail _ _ _ _ _ = none

unfoldable pub decode_details : Bytes → Option PaymentDetails
unfolding get_option decode_tail
decode_details s =
    let a = get_option s in
    let b = get_option a.1 in
    let c = get_option b.1 in let d = get_option c.1 in decode_tail a.0 b.0 c.0 d.0 d.1

pub decode-encode_details : (d : PaymentDetails) → decode_details (encode_details d) ≡ some d
unfolding decode_details encode_details
decode-encode_details d =
    let s₄ = d.time ∷ of_number d.expires ∷ length d.outputs ∷ put_outputs d.outputs [] in
    let s₃ = put_option d.merchant_data s₄ in
    let s₂ = put_option d.payment_url s₃ in
    let s₁ = put_option d.memo s₂ in
    ap
      (λ (a : Option Bytes × Bytes).
        let b = get_option a.1 in
        let c = get_option b.1 in let e = get_option c.1 in decode_tail a.0 b.0 c.0 e.0 e.1)
      (get_option-put_option d.network s₁)
    ∙ ap
        (λ (b : Option Bytes × Bytes).
          let c = get_option b.1 in let e = get_option c.1 in decode_tail d.network b.0 c.0 e.0 e.1)
        (get_option-put_option d.memo s₂)
    ∙ ap
        (λ (c : Option Bytes × Bytes).
          let e = get_option c.1 in decode_tail d.network d.memo c.0 e.0 e.1)
        (get_option-put_option d.payment_url s₃)
    ∙ ap (λ (e : Option Bytes × Bytes). decode_tail d.network d.memo d.payment_url e.0 e.1)
        (get_option-put_option d.merchant_data s₄)
    ∙ ap (λ os. some (record d { outputs = os.0; expires = to_number (of_number d.expires) }))
        (get_outputs-put_outputs d.outputs [])
    ∙ ap (λ n. some (record d { expires = n })) (to_number-of_number d.expires)

unfoldable pub encode_request : PaymentRequest → Bytes
unfolding put_option
encode_request r = put_option r.pki_type (
    put_option r.pki_data
      (put_option r.signature (of_number r.payment_details_version ∷ r.serialized_payment_details)))

unfoldable pub request_tail :
    Option Bytes → Option Bytes → Option Bytes → Bytes → Option PaymentRequest
unfolding to_number
request_tail t p g [] = none
request_tail t p g (v ∷ s) = some (record {
  payment_details_version = to_number v;
  pki_type = t;
  pki_data = p;
  serialized_payment_details = s;
  signature = g;
})

unfoldable pub decode_request : Bytes → Option PaymentRequest
unfolding get_option request_tail
decode_request s =
    let a = get_option s in
    let b = get_option a.1 in let c = get_option b.1 in request_tail a.0 b.0 c.0 c.1

pub decode-encode_request : (r : PaymentRequest) → decode_request (encode_request r) ≡ some r
unfolding decode_request encode_request
decode-encode_request r =
    let s₃ = of_number r.payment_details_version ∷ r.serialized_payment_details in
    let s₂ = put_option r.signature s₃ in
    let s₁ = put_option r.pki_data s₂ in
    ap
      (λ (a : Option Bytes × Bytes).
        let b = get_option a.1 in let c = get_option b.1 in request_tail a.0 b.0 c.0 c.1)
      (get_option-put_option r.pki_type s₁)
    ∙ ap
        (λ (b : Option Bytes × Bytes).
          let c = get_option b.1 in request_tail r.pki_type b.0 c.0 c.1)
        (get_option-put_option r.pki_data s₂)
    ∙ ap (λ (c : Option Bytes × Bytes). request_tail r.pki_type r.pki_data c.0 c.1)
        (get_option-put_option r.signature s₃)
    ∙ ap (λ n. some (record r { payment_details_version = n }))
        (to_number-of_number r.payment_details_version)
