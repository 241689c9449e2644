-- ===== src/Endpoint/Proxy/Stored.antt =====
-- What http_endpoint_proxy_parse_url leaves in the storage, src/http_endpoint.c.
use http_c.Prelude.{
  ℕ, zero, suc, ◌+◌, ◌-◌, ◌*◌, ◌/◌, ◌≤◌, ◌<◌, ◌%◌, ◌^◌, ◌≡◌, refl, sym, ap, arith, some, List, [],
  ◌∷◌, ◌++◌, length, take, drop, length-append, length-drop, take-append, take_all, ◌∙◌, ltb,
  le→ltb, false, Option,
}
use http_c.Prelude.Buffers.{
  overwrite, length-overwrite, take-overwrite, take-overwrite_before, drop-overwrite,
  drop-overwrite_behind,
}
use http_c.Common.{Bytes, ok, ResultCode}
use http_c.Span.{CommonLib}
use http_c.Endpoint.Proxy.{
  zeros, basic_prefix, encoded_length, store_credentials, finish_credentials, read_address,
  credentials_of, http_endpoint_proxy_parse_url, Address, store_proxy, proxy_of, ProxyHost,
}

length-zeros : (n : ℕ) → length (zeros n) ≡ n
length-zeros zero = refl
length-zeros (suc n) = ap suc (length-zeros n)

module _ {ℓ} {A : Type ℓ} where
  -- A window before a write keeps its elements.
  window_kept :
      (m k n : ℕ) (ys xs : List A)
      → m + k ≤ n
      → m ≤ length xs
      → take k (drop m (overwrite n ys xs)) ≡ take k (drop m xs)
  window_kept m k n ys xs h r =
      let e : n ≡ m + (n - m) = omega arith in
      rw (e, drop-overwrite m (n - m) ys xs r)
        (take-overwrite_before k (n - m) ys (drop m xs) (omega arith))

  -- A window that ends with a write, which starts `k` elements into it.
  window_written :
      (m k : ℕ) (ys xs : List A)
      → m + k ≤ length xs
      → take (k + length ys) (drop m (overwrite (m + k) ys xs)) ≡ take k (drop m xs) ++ ys
  window_written m k ys xs h =
      rw (drop-overwrite m k ys xs (omega arith))
        (take-overwrite k (length ys) ys (drop m xs) refl (omega (arith, length-drop m xs)))

  -- A write over a whole list is all of it.
  overwrite_all : (ys xs : List A) → length ys ≡ length xs → ys ++ drop (length ys) xs ≡ ys
  overwrite_all [] [] h = refl
  overwrite_all [] (x ∷ xs) h = absurd (omega arith)
  overwrite_all (y ∷ ys) [] h = absurd (omega arith)
  overwrite_all (y ∷ ys) (x ∷ xs) h = ap (◌∷◌ y) (overwrite_all ys xs (omega arith))

  -- A write up to the end of a list is its end.
  drop_written :
      (m : ℕ) (ys xs : List A) → m + length ys ≡ length xs → drop m (overwrite m ys xs) ≡ ys
  drop_written zero ys xs h = overwrite_all ys xs (omega arith)
  drop_written (suc m) ys [] h = absurd (omega arith)
  drop_written (suc m) ys (x ∷ xs) h = drop_written m ys xs (omega arith)

  -- What a write puts there is read back.
  read_back :
      (m : ℕ) (ys xs : List A)
      → m + length ys ≤ length xs
      → take (length ys) (drop m (overwrite m ys xs)) ≡ ys
  read_back zero ys xs h = take-append (length ys) ys (drop (length ys) xs) refl
  read_back (suc m) ys [] h = absurd (omega arith)
  read_back (suc m) ys (x ∷ xs) h = read_back m ys xs (omega arith)

-- What is staged at the end is still there once the prefix is written before it.
staged_kept :
    (at staged : ℕ) (prefix credentials storage : Bytes)
    → at + length prefix ≤ staged
    → staged + length credentials ≡ length storage
    → take
        (length credentials)
        (drop staged (overwrite at prefix (overwrite staged credentials storage)))
      ≡ credentials
staged_kept at staged prefix credentials storage h r =
    let same : length (overwrite staged credentials storage) ≡ length storage =
      length-overwrite staged credentials storage (omega arith) in
    rw
      (
        drop-overwrite_behind staged at prefix (overwrite staged credentials storage) h
            (omega arith),
        drop_written staged credentials storage r,
      )
      (take_all (length credentials) credentials (omega arith))

-- The credentials are wiped, and the end of the encoding behind them is written before them.
wiped :
    (at staged n : ℕ) (storage : Bytes)
    → at + 1 ≤ staged
    → staged + n ≡ length storage
    → drop staged (overwrite at (0 ∷ []) (overwrite staged (zeros n) storage)) ≡ zeros n
wiped at staged n storage h r =
    let full = length-zeros n in
    let same : length (overwrite staged (zeros n) storage) ≡ length storage =
      length-overwrite staged (zeros n) storage (omega arith) in
    rw
      (drop-overwrite_behind staged at (0 ∷ []) (overwrite staged (zeros n) storage) h
        (omega arith))
      (drop_written staged (zeros n) storage (omega arith))

-- The prefix and the encoding are kept by what is written behind them.
authorization_kept :
    (at staged n : ℕ) (prefix encoded storage : Bytes)
    → at + (length prefix + length encoded + 1) ≤ staged
    → staged + n ≡ length storage
    → take (length prefix + length encoded) (
        drop at (
          overwrite (at + (length prefix + length encoded)) (0 ∷ []) (
            overwrite staged
              (zeros n)
              (overwrite (at + length prefix) encoded (overwrite at prefix storage)))))
      ≡ prefix ++ encoded
authorization_kept at staged n prefix encoded storage h r =
    let k = length prefix + length encoded in
    let s1 = overwrite at prefix storage in
    let s2 = overwrite (at + length prefix) encoded s1 in
    let s3 = overwrite staged (zeros n) s2 in
    let full = length-zeros n in
    let l1 : length s1 ≡ length storage = length-overwrite at prefix storage (omega arith) in
    let l2 : length s2 ≡ length s1 =
      length-overwrite (at + length prefix) encoded s1 (omega arith) in
    let l3 : length s3 ≡ length s2 = length-overwrite staged (zeros n) s2 (omega arith) in
    let behind = window_kept at k (at + k) (0 ∷ []) s3 (omega arith) (omega arith) in
    let before = window_kept at k staged (zeros n) s2 (omega arith) (omega arith) in
    let joined = window_written at (length prefix) encoded s1 (omega arith) in
    let first : take (length prefix) (drop at s1) ≡ prefix =
      read_back at prefix storage (omega arith) in
    behind ∙ before ∙ joined ∙ ap (λ (p : Bytes). p ++ encoded) first

module _ (base64_encode : Bytes → Option Bytes) (hostname credentials storage encoded : Bytes)
    (answered : base64_encode credentials ≡ some encoded)
    (sized : length encoded ≡ 4 * ((length credentials + 2) / 3))
    (room : length hostname + 1 + (length basic_prefix + length encoded + 1 + length credentials)
      ≤ length storage)
    (small : length storage < 2 ^ 32) where
  no_wrap : length credentials % 2 ^ 32 ≡ length credentials
  no_wrap = omega arith

  encoded_length-encoded : encoded_length (length credentials) ≡ length encoded
  encoded_length-encoded =
      let inner : (length credentials + 2) % 2 ^ 32 ≡ length credentials + 2 = omega arith in
      rw (inner, sym sized) (omega arith)

  authorization_no_wrap :
      (length basic_prefix + encoded_length (length credentials)) % 2 ^ 32 ≡ 6 + length encoded
  authorization_no_wrap = rw encoded_length-encoded (omega arith)

  -- store_credentials, where the encoder answers and the storage has room: `ok`, the
  -- authorization is the prefix and the encoding, the decoded credentials are wiped, and the host
  -- name before them is kept.
  store_credentials-wiped :
      let (result, authorization, storage') =
        store_credentials base64_encode hostname credentials storage in
      (result ≡ ok)
      × (authorization ≡ basic_prefix ++ encoded)
      × (drop (length storage - length credentials) storage' ≡ zeros (length credentials))
      × (take (length hostname + 1) storage' ≡ take (length hostname + 1) storage)
  unfolding store_credentials
  store_credentials-wiped =
      let n = length credentials in
      let at = length hostname + 1 in
      let staged = length storage - n in
      let s1 = overwrite staged credentials storage in
      let s2 = overwrite at basic_prefix s1 in
      let kept : take n (drop staged s2) ≡ credentials =
        staged_kept at staged basic_prefix credentials storage (omega arith) (omega arith) in
      let l1 : length s1 ≡ length storage =
        length-overwrite staged credentials storage (omega arith) in
      let l2 : length s2 ≡ length s1 = length-overwrite at basic_prefix s1 (omega arith) in
      let l3 : length (overwrite (at + 6) encoded s2) ≡ length s2 =
        length-overwrite (at + 6) encoded s2 (omega arith) in
      let run = λ (k : ℕ).
        let s' = overwrite at basic_prefix (overwrite (length storage - k) credentials storage) in
        finish_credentials at (length storage - k) k s'
          (base64_encode (take k (drop (length storage - k) s'))) in
      let ran : store_credentials base64_encode hostname credentials storage
          ≡ finish_credentials at staged n s2 (some encoded) =
        ap run no_wrap
        ∙ ap (λ (s : Bytes). finish_credentials at staged n s2 (base64_encode s)) kept
        ∙ ap (finish_credentials at staged n s2) answered in
      rw (ran, authorization_no_wrap)
        (
          refl,
          authorization_kept at staged n basic_prefix encoded s1 (omega arith) (omega arith),
          wiped (at + (6 + length encoded)) staged n (overwrite (at + 6) encoded s2) (omega arith)
              (omega arith),
          take-overwrite_before at (at + (6 + length encoded)) (0 ∷ [])
                (overwrite staged (zeros n) (overwrite (at + 6) encoded s2)) (omega arith)
              ∙ take-overwrite_before at staged (zeros n) (overwrite (at + 6) encoded s2)
                  (omega arith)
              ∙ take-overwrite_before at (at + 6) encoded s2 (omega arith)
              ∙ take-overwrite_before at at basic_prefix s1 (omega arith)
              ∙ take-overwrite_before at staged credentials storage (omega arith),
        )

proxy_of-ok :
    (address : Address) (stored : ResultCode × Bytes × Bytes) (authorization : Bytes)
    → stored.0 ≡ ok
    → stored.1 ≡ authorization
    → proxy_of address stored ≡ (
      ok,
      record { hostname = address.host; port = address.port_number; authorization = authorization },
      stored.2,
    )
proxy_of-ok address (result, written, storage) authorization done authorized =
    rw (done, authorized) refl

-- http_endpoint_proxy_parse_url, of an address with a user and a password, into a storage with room
-- for the host name, the authorization and the credentials, of a uint32_t size, where base64_encode
-- answers with four bytes for three, the last ones padded: the result is `ok`, the proxy has the host, the port and
-- "Basic " with the encoding, the storage starts with the host name and a NUL, and the decoded
-- credentials at its end are zeros.
pub parse_url-stored :
    (lib : CommonLib) (base64_encode : Bytes → Option Bytes)
    (proxy_url storage user password encoded : Bytes) (address : Address)
    → read_address lib proxy_url ≡ some address
    → credentials_of lib address.user_information ≡ some (some (user, password))
    → base64_encode (user ++ (b':' ∷ password)) ≡ some encoded
    → length encoded ≡ 4 * ((length (user ++ (b':' ∷ password)) + 2) / 3)
    → length address.host
        + 1
        + (length basic_prefix + length encoded + 1 + length (user ++ (b':' ∷ password)))
      ≤ length storage
    → length storage < 2 ^ 32
    → (storage' : Bytes) × (http_endpoint_proxy_parse_url lib base64_encode proxy_url (some storage)
        ≡ (
          ok,
          record {
            hostname = address.host;
            port = address.port_number;
            authorization = basic_prefix ++ encoded;
          },
          some storage',
        ))
      × (take (length address.host + 1) storage' ≡ address.host ++ (0 ∷ []))
      × (drop (length storage - length (user ++ (b':' ∷ password))) storage'
          ≡ zeros (length (user ++ (b':' ∷ password))))
unfolding http_endpoint_proxy_parse_url store_proxy
parse_url-stored lib base64_encode proxy_url storage user password encoded address read given
      answered sized room small =
    let credentials = user ++ (b':' ∷ password) in
    let named = overwrite 0 (address.host ++ 0 ∷ []) storage in
    let n_named : length (address.host ++ 0 ∷ []) ≡ length address.host + 1 =
      length-append address.host (0 ∷ []) in
    let same : length named ≡ length storage =
      length-overwrite 0 (address.host ++ 0 ∷ []) storage (omega arith) in
    let (done, authorized, gone, kept) =
      store_credentials-wiped base64_encode address.host credentials named encoded answered sized
        (omega arith) (omega arith) in
    let whole =
      no_wrap base64_encode address.host credentials storage encoded answered sized room small in
    let same_size =
      encoded_length-encoded base64_encode address.host credentials storage encoded answered sized
        room small in
    let fits : ltb (length storage) (
          (length address.host
            + 1
            + (length basic_prefix + encoded_length (length credentials) + 1 + length credentials))
          % 2 ^ 32)
        ≡ false =
      rw same_size (le→ltb (length storage) _ (omega arith)) in
    let stored = store_credentials base64_encode address.host credentials named in
    rw (http_endpoint_proxy_parse_url, read, given, whole, fits)
      (
        stored.2,
        ap (λ (r : ResultCode × ProxyHost × Bytes). (r.0, r.1, some r.2))
            (proxy_of-ok address stored (basic_prefix ++ encoded) done authorized),
        kept
            ∙ take-append (length address.host + 1) (address.host ++ 0 ∷ [])
                (drop (length (address.host ++ 0 ∷ [])) storage) (sym n_named),
        ap (λ (k : ℕ). drop (k - length credentials) stored.2) (sym same) ∙ gone,
      )
