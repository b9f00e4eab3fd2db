-- ===== src/Control/Client/Sealed.antt =====
-- What the info string binds a sealed response to.
use tunnet_lite.Base.{ℕ, String, List, [], ◌∷◌, ◌++◌, All, ok, ◌≡◌, ◌≢◌, refl}
use tunnet_lite.Base.Utf8.{utf8}
use tunnet_lite.Control.Client.{Exchange, Client, Outside, info, open_response}

-- A text without a NUL.
abbrev pub IsPlain : String → Type 0
IsPlain s = All (λ b. b ≢ 0) (utf8 s)

cut_same :
    (a b x y : List ℕ)
    → All (λ c. c ≢ 0) a
    → All (λ c. c ≢ 0) b
    → a ++ (0 ∷ x) ≡ b ++ (0 ∷ y)
    → (a ≡ b) × (x ≡ y)
cut_same [] [] x y p q e = (refl, cc)
cut_same [] (c ∷ b) x y p q e = absurd (q.0 cc)
cut_same (c ∷ a) [] x y p q e = absurd (p.0 cc)
cut_same (c ∷ a) (d ∷ b) x y p q e = let (h, k) = cut_same a b x y p.1 q.1 cc in (cc, k)

append_cancel : (a x y : List ℕ) → a ++ x ≡ a ++ y → x ≡ y
append_cancel [] x y e = e
append_cancel (c ∷ a) x y e = append_cancel a x y cc

module _ {K : Type 0} where
  info_same :
      (id_0 id_1 : String) (ex_0 ex_1 : Exchange K)
      → IsPlain id_0
      → IsPlain id_1
      → IsPlain ex_0.operation
      → IsPlain ex_1.operation
      → info id_0 ex_0 ≡ info id_1 ex_1
      → (utf8 ex_0.operation ≡ utf8 ex_1.operation)
        × (utf8 id_0 ≡ utf8 id_1)
        × (ex_0.nonce_raw ≡ ex_1.nonce_raw)
  unfolding info
  info_same id_0 id_1 ex_0 ex_1 p q r s e =
      let k = append_cancel (utf8 "TunNet/client-response/v1") _ _ e in
      let (o, l) = cut_same (utf8 ex_0.operation) (utf8 ex_1.operation) _ _ r s (tail_same k) in
      let (i, n) = cut_same (utf8 id_0) (utf8 id_1) _ _ p q l in (o, i, n)
    where
      tail_same : {x y : List ℕ} → 0 ∷ x ≡ 0 ∷ y → x ≡ y
      tail_same h = cc

module _ (O : Outside) (seal : O.Key → List ℕ → List ℕ → List ℕ) where
  -- What was sealed under one info string does not open under another.
  pub record IsBinding : Type 0 where
    pub at :
        (key : O.Key) (i j plain out : List ℕ)
        → O.open_sealed key i (seal key j plain) ≡ ok out
        → i ≡ j

  -- A response that was sealed for one call, client and nonce opens in another exchange only if the
  -- operation, the client id and the nonce are the same, byte for byte; if HPKE binds the info string,
  -- and neither the operations nor the client ids hold a NUL.
  pub open_response-same :
      (v : IsBinding) (c : Client) (ex other : Exchange O.Key) (id : String) (plain out : List ℕ)
      → IsPlain c.identity.client_id
      → IsPlain id
      → IsPlain ex.operation
      → IsPlain other.operation
      → open_response O c ex (seal ex.response_key (info id other) plain) ≡ ok out
      → (utf8 ex.operation ≡ utf8 other.operation)
        × (utf8 c.identity.client_id ≡ utf8 id)
        × (ex.nonce_raw ≡ other.nonce_raw)
  unfolding open_response
  open_response-same v c ex other id plain out p q r s h =
      info_same c.identity.client_id id ex other p q r s
        (v.at ex.response_key (info c.identity.client_id ex) (info id other) plain out h)
