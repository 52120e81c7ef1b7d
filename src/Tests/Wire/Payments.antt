-- ===== src/Tests/Wire/Payments.antt =====
-- A stand-in for the encodings of payments and their acknowledgements, and what it reads back.
use keyserver_rust.Prelude.{
  ℕ, zero, suc, ◌≡◌, refl, ap, ◌∙◌, Option, none, some, List, [], ◌∷◌, length,
}
use keyserver_rust.Prelude.Bytes.{Bytes}
use keyserver_rust.Models.{Payment, PaymentAck}
use keyserver_rust.Tests.Wire.{
  put_bytes, get_bytes, put_option, get_option, put_outputs, get_outputs, get_bytes-put_bytes,
  get_option-put_option, get_outputs-put_outputs,
}

unfoldable pub put_all : List Bytes → Bytes → Bytes
put_all [] rest = rest
put_all (b ∷ bs) rest = put_bytes b (put_all bs rest)

unfoldable pub get_all : ℕ → Bytes → List Bytes × Bytes
get_all zero s = ([], s)
get_all (suc n) s = let (b, s₁) = get_bytes s in let (bs, s₂) = get_all n s₁ in (b ∷ bs, s₂)

get_all-put_all :
    (bs : List Bytes) (rest : Bytes) → get_all (length bs) (put_all bs rest) ≡ (bs, rest)
unfolding get_all put_all
get_all-put_all [] rest = refl
get_all-put_all (b ∷ bs) rest =
    ap (λ r. (r.0 ∷ (get_all (length bs) r.1).0, (get_all (length bs) r.1).1))
      (get_bytes-put_bytes b (put_all bs rest))
    ∙ ap (λ r. (b ∷ r.0, r.1)) (get_all-put_all bs rest)

unfoldable pub encode_payment : Payment → Bytes
unfolding put_option put_outputs put_all
encode_payment p = put_option p.merchant_data (
    put_option p.memo (
      length p.transactions
      ∷ length p.refund_to
      ∷ put_all p.transactions (put_outputs p.refund_to [])))

unfoldable pub payment_tail : Option Bytes → Option Bytes → Bytes → Option Payment
unfolding get_outputs get_all
payment_tail md memo (n ∷ m ∷ s) =
    let txs = get_all n s in
    some (record {
      merchant_data = md;
      transactions = txs.0;
      refund_to = (get_outputs m txs.1).0;
      memo = memo;
    })
payment_tail _ _ _ = none

unfoldable pub decode_payment : Bytes → Option Payment
unfolding get_option payment_tail
decode_payment s = let a = get_option s in let b = get_option a.1 in payment_tail a.0 b.0 b.1

pub decode-encode_payment : (p : Payment) → decode_payment (encode_payment p) ≡ some p
unfolding decode_payment encode_payment
decode-encode_payment p =
    let s₃ = put_outputs p.refund_to [] in
    let s₂ = length p.transactions ∷ length p.refund_to ∷ put_all p.transactions s₃ in
    let s₁ = put_option p.memo s₂ in
    ap (λ (a : Option Bytes × Bytes). let b = get_option a.1 in payment_tail a.0 b.0 b.1)
      (get_option-put_option p.merchant_data s₁)
    ∙ ap (λ (b : Option Bytes × Bytes). payment_tail p.merchant_data b.0 b.1)
        (get_option-put_option p.memo s₂)
    ∙ ap
        (λ txs. some (record p {
          transactions = txs.0;
          refund_to = (get_outputs (length p.refund_to) txs.1).0;
        }))
        (get_all-put_all p.transactions s₃)
    ∙ ap (λ os. some (record p { refund_to = os.0 })) (get_outputs-put_outputs p.refund_to [])

unfoldable pub encode_ack : PaymentAck → Bytes
unfolding encode_payment put_option
encode_ack a = put_option a.memo (encode_payment a.payment)

abbrev pub acknowledging : Option Bytes → Option Payment → Option PaymentAck
acknowledging memo none = none
acknowledging memo (some p) = some (record { payment = p; memo = memo })

unfoldable pub decode_ack : Bytes → Option PaymentAck
unfolding decode_payment get_option
decode_ack s = let a = get_option s in acknowledging a.0 (decode_payment a.1)

pub decode-encode_ack : (a : PaymentAck) → decode_ack (encode_ack a) ≡ some a
unfolding decode_ack encode_ack
decode-encode_ack a =
    ap (λ (m : Option Bytes × Bytes). acknowledging m.0 (decode_payment m.1))
      (get_option-put_option a.memo (encode_payment a.payment))
    ∙ ap (acknowledging a.memo) (decode-encode_payment a.payment)
