-- ===== src/Net/CheckPayment/Tokens.antt =====
-- Which requests pass the middleware of src/net/payments.rs.
use keyserver_rust.Prelude.{
  ℕ, ◌≡◌, ◌≢◌, ◌<◌, ◌↔◌, refl, sym, ap, subst, ◌∙◌, ◌⊎◌, inl, inr, true, Option, none, some, [],
  ◌∷◌, ◌++◌, done, arith, All, length, take, drop, take-append-drop, take-append, drop-append,
  Option-cases, Bool-cases, Outcome-cases, ok_or-eq-done, leb,
}
use keyserver_rust.Prelude.Bytes.{
  Bytes, text, bytes_eq, bytes_eq_iff, bytes_eq_refl, str_from, str_to, is_char_boundary,
}
use keyserver_rust.Prelude.Steps.{>>=-eq-done}
use keyserver_rust.Crates.{Crates, Rpc}
use keyserver_rust.Crates.Laws.{SubtleLaws, WebLaws}
use keyserver_rust.Http.{Request, Method, put_method, other_method, authorization}
use keyserver_rust.Errors.{ServerError}
use keyserver_rust.Settings.{Settings}
use keyserver_rust.Bitcoin.Wallet.{WalletState}
use keyserver_rust.Crypto.Token.{generate_token, validate_token_iff}
use keyserver_rust.Net.CheckPayment.{
  forward, merchant_url, cut_pop, token_string, check_token, authorize, addresses, invoice_for,
  issue_invoice, check_authorization, decide_put, decide,
}

-- `&s[n..]` and `&s[..n]`, read off their results.
str_from-eq-done : {E : Type 0} (n : ℕ) (s t : Bytes) → str_from {E = E} n s ≡ done t → drop n s ≡ t
unfolding str_from
str_from-eq-done n s t e = ground arith

str_to-eq-done : {E : Type 0} (n : ℕ) (s t : Bytes) → str_to {E = E} n s ≡ done t → take n s ≡ t
unfolding str_to
str_to-eq-done n s t e = ground arith

-- After "POP " an ASCII string may be cut.
pop_boundary :
    (s : Bytes)
    → All (λ b. b < 128) (text "POP " ++ s)
    → is_char_boundary (text "POP " ++ s) 4 ≡ true
unfolding text is_char_boundary
pop_boundary [] h = refl
pop_boundary (b ∷ s) h = ground arith

pop_length : (s : Bytes) → (leb 4 (length (text "POP " ++ s)) ≡ true) × (length (text "POP ") ≡ 4)
unfolding text
pop_length s = (ground arith, refl)

module _ (x : Crates) where
  cut_pop-eq-done : (a t : Bytes) → cut_pop x a ≡ done t → a ≡ text "POP " ++ t
  unfolding cut_pop
  cut_pop-eq-done a t e = elim (Bool-cases (leb 4 (length a))) [
    | inr short ↦ absurd (ground arith)
    | inl long ↦
        let (head, cut, e₁) = >>=-eq-done (str_to {E = ServerError x} 4 a) _ (rw long at e) in
        elim (Bool-cases (bytes_eq head (text "POP "))) [
          | inr other ↦ absurd (ground arith)
          | inl same ↦
              let pop : take 4 a ≡ text "POP " =
                str_to-eq-done 4 a head cut ∙ (bytes_eq_iff head (text "POP ")).0 same in
              let rest : drop 4 a ≡ t = str_from-eq-done 4 a t (rw same at e₁) in
              sym (take-append-drop 4 a)
              ∙ ap (λ u. u ++ drop 4 a) pop
              ∙ ap (λ u. text "POP " ++ u) rest
        ]
  ]

  cut_pop-pop :
      (t : Bytes) → All (λ b. b < 128) (text "POP " ++ t) → cut_pop x (text "POP " ++ t) ≡ done t
  unfolding cut_pop str_to str_from
  cut_pop-pop t ascii =
      rw
        (
          (pop_length t).0,
          pop_boundary t ascii,
          take-append 4 (text "POP ") t (pop_length t).1,
          drop-append 4 (text "POP ") t (pop_length t).1,
        )
        (rw (bytes_eq_refl (text "POP ")))

  -- A header yields a token string exactly if it reads "POP " and the string.
  pub token_string_iff :
      WebLaws x.web
      → (value t : Bytes)
      → (token_string x value ≡ done t) ↔ (x.to_str value ≡ some (text "POP " ++ t))
  unfolding token_string
  token_string_iff laws value t = (
    λ e.
        let (a, read, e₁) = >>=-eq-done _ _ e in
        ok_or-eq-done _ _ read ∙ ap some (cut_pop-eq-done a t e₁),
    λ e.
        let (same, ascii) = laws.ascii_to_str value _ e in
        rw e (cut_pop-pop t (subst (All (λ b. b < 128)) (sym same) ascii)),
  )

-- The payment of a request is proved: its header carries, in base64, the token of its URL.
pub record IsPaid (x : Crates) (settings : Settings) (req : Request) : Type 0 where
  pub value : Bytes
  pub token_str : Bytes
  pub has_header : req.header authorization ≡ some value
  pub reads : x.to_str value ≡ some (text "POP " ++ token_str)
  pub decodes :
      x.base64_decode token_str ≡ some (generate_token x (merchant_url req) settings.secret)

module _ (x : Crates) (settings : Settings) (subtle : SubtleLaws x.subtle) where
  check_token_iff :
      (req : Request) (o : Option Bytes)
      → (check_token x settings req o ≡ done forward)
        ↔ (o ≡ some (generate_token x (merchant_url req) settings.secret))
  unfolding check_token
  check_token_iff req none = (λ e. cc, λ e. cc)
  check_token_iff req (some token) = (
    λ e.
        ap some
          ((validate_token_iff x subtle (merchant_url req) settings.secret token).0 (ground arith)),
    λ e. ground (arith, (validate_token_iff x subtle (merchant_url req) settings.secret token).1),
  )

  module _ (web : WebLaws x.web) where
    authorize_sound :
        (req : Request) (value : Bytes)
        → req.header authorization ≡ some value
        → authorize x settings req value ≡ done forward
        → IsPaid x settings req
    unfolding authorize
    authorize_sound req value has e =
        let (t, read, e₁) = >>=-eq-done (token_string x value) _ e in
        record {
          value = value;
          token_str = t;
          has_header = has;
          reads = (token_string_iff x web value t).0 read;
          decodes = (check_token_iff req (x.base64_decode t)).0 e₁;
        }

    authorize_complete :
        (req : Request) (paid : IsPaid x settings req)
        → authorize x settings req paid.value ≡ done forward
    unfolding authorize
    authorize_complete req paid =
        rw ((token_string_iff x web paid.value paid.token_str).1 paid.reads)
          ((check_token_iff req (x.base64_decode paid.token_str)).1 paid.decodes)

    pub invoice-ne-forward :
        (r : Rpc) (req : Request) (now : ℕ) (w : WalletState)
        → (issue_invoice x settings r req now w).0 ≢ done forward
    unfolding issue_invoice invoice_for
    invoice-ne-forward r req now w e = elim (Outcome-cases (addresses x settings r req)) [
      | inl (both, found) ↦ absurd (cc (rw found at e))
      | inr (inl (f, failed)) ↦ absurd (cc (rw failed at e))
      | inr (inr panicked) ↦ absurd (cc (rw panicked at e))
    ]

    decide_put_iff :
        (r : Rpc) (req : Request) (now : ℕ) (w : WalletState) (method : Method)
        → ((decide_put x settings r req now method w).0 ≡ done forward)
          ↔ ((method ≢ put_method) ⊎ IsPaid x settings req)
    unfolding decide_put check_authorization
    decide_put_iff r req now w (other_method name) = (λ e. inl (λ h. cc), λ h. refl)
    decide_put_iff r req now w put_method = elim (Option-cases (req.header authorization)) [
      | inl missing ↦ (
        λ e. absurd (invoice-ne-forward r req now w (rw (missing, check_authorization) at e)),
        λ h. elim h [
          | inl other ↦ absurd (other refl)
          | inr paid ↦ absurd (cc (missing, paid.has_header))
        ],
      )
      | inr (value, has) ↦ (
        λ e. inr (authorize_sound req value has (rw (has, check_authorization) at e)),
        λ h. elim h [
          | inl other ↦ absurd (other refl)
          | inr paid ↦ rw (paid.has_header, check_authorization) (authorize_complete req paid)
        ],
      )
    ]

    -- A request passes to the inner service exactly if its method is not PUT or its authorization
    -- header reads "POP " and, in base64, the token of its URL, without the query string, under
    -- the server's secret. The query string is not looked at: a token there opens nothing, although
    -- the comment at the place says that it is the second place to look.
    pub decide-forward_iff :
        (r : Rpc) (req : Request) (now : ℕ) (w : WalletState)
        → ((decide x settings r req now w).0 ≡ done forward)
          ↔ ((req.method ≢ put_method) ⊎ IsPaid x settings req)
    unfolding decide
    decide-forward_iff r req now w = decide_put_iff r req now w req.method
