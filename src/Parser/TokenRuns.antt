-- ===== src/Parser/TokenRuns.antt =====
-- The helpers on tokens of src/parser/parser.c end and move on; the rules for what follows them.
use mathlib.Core.Path.{subst}
use kratos_lang.Prelude.{
  ℕ, suc, ◌<◌, ◌≡◌, refl, sym, inl, inr, Bool, true, false, Bool-cases, arith, if◌then◌else◌,
}
use kratos_lang.Lexer.Token.{TokenType, token_eof, Token}
use kratos_lang.Parser.Kinds.{token_eq}
use kratos_lang.Parser.State.{
  Parser, P, ◌>>=◌, get, check, match, advanced, advance_token, refuse, expect, expect_name,
  error_at, token_to_cstring, diag_k202,
}
use kratos_lang.Parser.Weight.{
  at_end, weight, Forward-refl, Forward-trans, error_at-Forward, advanced-Forward, advanced-less,
}
use kratos_lang.Parser.Forward.{
  Step, Taken, Runs, runs, Takes, takes, Starts, starts, step_of, Takes-Taken, started, Runs-pure,
  Takes-bind,
}

pub Takes-advance_token : {n : ℕ} → Takes n advance_token
unfolding advance_token
Takes-advance_token = takes λ p h. record {
  step = record { value = tt; next = advanced p; done = refl; forward = advanced-Forward p };
  strict = λ e. advanced-less p e;
}

pub Takes-refuse : {n : ℕ} (code : ℕ) → Takes n (refuse code)
unfolding refuse
Takes-refuse code = takes λ p h.
    let reported = error_at-Forward code p in
    elim (Bool-cases (check p token_eof)) [
      | inl e ↦ rw e (record {
        step = record {
          value = tt;
          next = error_at p.current code p;
          done = refl;
          forward = reported;
        };
        strict = λ not_end. absurd (ground (arith, e, not_end));
      })
      | inr e ↦
          let q = error_at p.current code p in
          let same_end : at_end q ≡ false = unfold error_at in e in
          let far = advanced-Forward q in
          rw e (record {
            step = record {
              value = tt;
              next = advanced q;
              done = refl;
              forward = Forward-trans p q (advanced q) reported far;
            };
            strict = λ not_end. omega (arith, advanced-less q same_end, reported.less);
          })
    ]

Takes-advance_or_refuse :
    {n : ℕ} (b : Bool) (code : ℕ) → Takes n (if b then advance_token else refuse code)
Takes-advance_or_refuse true code = Takes-advance_token
Takes-advance_or_refuse false code = Takes-refuse code

module _ {ℓ} {A : Type ℓ} where
  pub Runs-get : {n : ℕ} {f : Parser → P A} → ((p : Parser) → Runs n (f p)) → Runs n (get >>= f)
  Runs-get k = runs λ p h. step_of (k p) p h

  pub Takes-get : {n : ℕ} {f : Parser → P A} → ((p : Parser) → Takes n (f p)) → Takes n (get >>= f)
  Takes-get k = takes λ p h. Takes-Taken (k p) p h

  pub Starts-get :
      {n : ℕ} {f : Parser → P A} → ((p : Parser) → Starts n (f p)) → Starts n (get >>= f)
  Starts-get k = starts λ p e h. started (k p) p e h

  -- A branch on the current token, which is not the end where the test holds.
  pub Runs-get_if :
      {n : ℕ} (test : Parser → Bool) {m k : Parser → P A}
      → ((p : Parser) → test p ≡ true → at_end p ≡ false)
      → ((p : Parser) → Starts n (m p))
      → ((p : Parser) → Runs n (k p))
      → Runs n (get >>= λ p. if test p then m p else k p)
  Runs-get_if test inside then_runs else_runs = runs λ p h. elim (Bool-cases (test p)) [
    | inl e ↦ rw e ((started (then_runs p) p (inside p e) h).step)
    | inr e ↦ rw e (step_of (else_runs p) p h)
  ]

  pub Takes-get_if :
      {n : ℕ} (test : Parser → Bool) {m k : Parser → P A}
      → ((p : Parser) → test p ≡ true → at_end p ≡ false)
      → ((p : Parser) → Starts n (m p))
      → ((p : Parser) → Takes n (k p))
      → Takes n (get >>= λ p. if test p then m p else k p)
  Takes-get_if test inside then_runs else_runs = takes λ p h. elim (Bool-cases (test p)) [
    | inl e ↦ rw e (started (then_runs p) p (inside p e) h)
    | inr e ↦ rw e (Takes-Taken (else_runs p) p h)
  ]

pub Takes-expect : {n : ℕ} (type : TokenType) → Takes n (expect type)
unfolding expect
Takes-expect type =
    Takes-get
      λ p. Takes-bind (Takes-advance_or_refuse (check p type) diag_k202) λ a. Runs-pure p.current

pub Runs-token_to_cstring : {n : ℕ} (token : Token) → Runs n (token_to_cstring token)
Runs-token_to_cstring token =
    runs λ p h. record { value = _; next = p; done = refl; forward = Forward-refl p }

pub Takes-expect_name : {n : ℕ} (type : TokenType) → Takes n (expect_name type)
unfolding expect_name
Takes-expect_name type = Takes-bind (Takes-expect type) Runs-token_to_cstring

-- A kind of token other than the end.
abbrev pub IsInside : TokenType → Type 0
IsInside type = token_eq type token_eof ≡ false

-- Where the current token is of a kind other than the end, the source is not at its end.
pub check-inside :
    (p : Parser) (type : TokenType) → IsInside type → check p type ≡ true → at_end p ≡ false
check-inside p type h e = ground (arith, h, e)

pub Runs-match : {n : ℕ} (type : TokenType) → Runs n (match type)
unfolding match
Runs-match type = runs λ p h. elim (Bool-cases (check p type)) [
  | inl e ↦
      rw e (record { value = true; next = advanced p; done = refl; forward = advanced-Forward p })
  | inr e ↦ rw e (record { value = false; next = p; done = refl; forward = Forward-refl p })
]

module _ {ℓ} {A : Type ℓ} where
  -- What follows a match has one unit of the bound less.
  pub Runs-match_bind :
      {n : ℕ} (type : TokenType) (f : Bool → P A)
      → IsInside type
      → Runs n (f true)
      → Runs (suc n) (f false)
      → Runs (suc n) (match type >>= f)
  unfolding match
  Runs-match_bind type f inside then_runs else_runs = runs λ p h. elim (Bool-cases (check p type)) [
    | inl e ↦
        let less = advanced-less p (check-inside p type inside e) in
        let far = advanced-Forward p in
        let r = step_of then_runs (advanced p) (omega (arith, less, h)) in
        rw e (record {
          value = r.value;
          next = r.next;
          done = r.done;
          forward = Forward-trans p (advanced p) r.next far r.forward;
        })
    | inr e ↦ rw e (step_of else_runs p h)
  ]

end_kind : (type : TokenType) → token_eq type token_eof ≡ true → type ≡ token_eof
end_kind token_eof h = refl
end_kind _ h = ground (arith, h)

kind_inside :
    (p : Parser) (type : TokenType) → p.current.type ≡ type → IsInside type → at_end p ≡ false
kind_inside p type e h = rw e h

module _ {ℓ} {A : Type ℓ} where
  -- A function of the current token's kind: what it does at the end, and at the other tokens.
  pub Takes-dispatch :
      {n : ℕ} (f : Parser → TokenType → P A)
      → ((p : Parser) → Takes n (f p token_eof))
      → ((p : Parser) (type : TokenType) → Starts n (f p type))
      → Takes n (get >>= λ p. f p p.current.type)
  Takes-dispatch f end token = takes λ p h. elim (Bool-cases (at_end p)) [
    | inl e ↦
        subst (λ type. Taken p (f p type p)) (sym (end_kind p.current.type e))
          (Takes-Taken (end p) p h)
    | inr e ↦ started (token p p.current.type) p e h
  ]

  -- A result at a token of a kind that is not the end.
  pub step_at :
      {n : ℕ} {m : P A} (p : Parser) (type : TokenType)
      → Starts n m
      → p.current.type ≡ type
      → IsInside type
      → weight p < n
      → Step p (m p)
  step_at p type s e inside h = (started s p (kind_inside p type e inside) h).step
