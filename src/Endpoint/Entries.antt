-- ===== src/Endpoint/Entries.antt =====
-- The entries of a no_proxy list, as http_endpoint_proxy_should_bypass of src/http_endpoint.c reads
-- them: a star, or a name with what may stand around it.
use http_c.Prelude.{
  ℕ, ◌≡◌, ◌≢◌, ◌↔◌, refl, sym, ap, ◌∙◌, subst, true, false, inl, inr, Option, none, some, [], ◌∷◌,
  ◌++◌, append-nil, length, length-append, get_or, take-append, ◌==◌, arith,
}
use http_c.Common.{Bytes}
use http_c.Span.{CommonLib}
use http_c.Span.Cut.{Free}
use http_c.Headers.Fields.{Free-append}
use http_c.Endpoint.{
  find_byte, find_last_byte, last_is, without_dot, without_port, without_star, without_front_dot,
  normal_entry, trim_blanks, entry_bypasses,
}
use http_c.Endpoint.Covers.{Covers, entry_bypasses_iff}

find_byte-Free : (x : ℕ) (s : Bytes) → Free x s → find_byte s x ≡ none
unfolding find_byte
find_byte-Free x [] h = refl
find_byte-Free x (c ∷ s) (h, k) = let rest = find_byte-Free x s k in ground arith

find_byte-at : (x : ℕ) (a b : Bytes) → Free x a → find_byte (a ++ (x ∷ b)) x ≡ some (length a)
unfolding find_byte
find_byte-at x [] b h = ground arith
find_byte-at x (c ∷ a) b (h, k) = let rest = find_byte-at x a b k in ground arith

find_last_byte-Free : (x : ℕ) (s : Bytes) → Free x s → find_last_byte s x ≡ none
unfolding find_last_byte
find_last_byte-Free x [] h = refl
find_last_byte-Free x (c ∷ s) (h, k) =
    let rest = find_last_byte-Free x s k in
    let other : (c == x) ≡ false = ground arith in rw (rest, other) refl

find_last_byte-at :
    (x : ℕ) (a b : Bytes) → Free x b → find_last_byte (a ++ (x ∷ b)) x ≡ some (length a)
unfolding find_last_byte
find_last_byte-at x [] b h =
    let rest = find_last_byte-Free x b h in
    let same : (x == x) ≡ true = ground arith in rw (rest, same) refl
find_last_byte-at x (c ∷ a) b h = let rest = find_last_byte-at x a b h in rw rest refl

-- what may stand in front of a name
pub data Front : Type 0 where
  bare dot star_dot : Front

abbrev pub front_text : Front → Bytes
front_text bare = []
front_text dot = b'.' ∷ []
front_text star_dot = b'*' ∷ b'.' ∷ []

-- a port behind a colon, or nothing
abbrev pub port_text : Option Bytes → Bytes
port_text none = []
port_text (some port) = b':' ∷ port

abbrev pub IsPort : Option Bytes → Type 0
IsPort none = Unit
IsPort (some port) = Free b':' port

-- A name, given by its first byte and the others, that has nothing of what may stand around it.
pub record IsName (c : ℕ) (s : Bytes) : Type 0 where
  pub no_bracket : (c == b'[') ≡ false
  pub no_star : (c == b'*') ≡ false
  pub no_dot : (c == b'.') ≡ false
  pub no_colon : Free b':' (c ∷ s)
  pub no_last_dot : last_is (c ∷ s) b'.' ≡ false

front-Free : (front : Front) → Free b':' (front_text front)
front-Free bare = tt
front-Free dot = (refl, tt)
front-Free star_dot = (refl, (refl, tt))

module _ (lib : CommonLib) where
  without_port-text :
      (text : Bytes) (port : Option Bytes)
      → Free b':' text
      → IsPort port
      → let entry = text ++ port_text port in
        without_port lib entry (find_byte entry b':') (find_last_byte entry b':') ≡ text
  without_port-text text none h k =
      let no_first =
        ap (λ (e : Bytes). find_byte e b':') (append-nil text) ∙ find_byte-Free b':' text h in
      let no_last =
        ap (λ (e : Bytes). find_last_byte e b':') (append-nil text)
        ∙ find_last_byte-Free b':' text h in
      ap (λ (i : Option ℕ). without_port lib (text ++ []) i (find_last_byte (text ++ []) b':'))
        no_first
      ∙ ap (without_port lib (text ++ []) none) no_last
      ∙ append-nil text
  without_port-text text (some port) h k =
      let size = length-append text (b':' ∷ port) in
      let same : (length text == length text) ≡ true = ground arith in
      rw (find_byte-at b':' text port h, find_last_byte-at b':' text port k, same)
        (lib.slice_lem (text ++ (b':' ∷ port)) 0 (length text) (omega arith)
          ∙ take-append (length text) text (b':' ∷ port) refl)

  without_front :
      (front : Front) (c : ℕ) (s : Bytes)
      → IsName c s
      → without_front_dot lib (without_star lib (front_text front ++ (c ∷ s))) ≡ c ∷ s
  without_front bare c s name = let star = name.no_star in let dot = name.no_dot in ground arith
  without_front dot c s name =
      let behind = lib.slice_to_end_lem (b'.' ∷ c ∷ s) 1 (omega arith) in ground arith
  without_front star_dot c s name =
      let behind = lib.slice_to_end_lem (b'*' ∷ b'.' ∷ c ∷ s) 1 (omega arith) in
      let behind' = lib.slice_to_end_lem (b'.' ∷ c ∷ s) 1 (omega arith) in
      let taken : without_star lib (b'*' ∷ b'.' ∷ c ∷ s) ≡ b'.' ∷ c ∷ s =
        (let long : without_star lib (b'*' ∷ b'.' ∷ c ∷ s)
              ≡ lib.slice_to_end (b'*' ∷ b'.' ∷ c ∷ s) 1 =
            ground arith in
          long ∙ behind) in
      ap (without_front_dot lib) taken ∙ behind'

  normal_entry-unbracketed :
      (entry : Bytes)
      → (get_or entry 0 0 == b'[') ≡ false
      → normal_entry lib entry
        ≡ without_dot lib (
            without_front_dot lib (
              without_star lib
                (without_port lib entry (find_byte entry b':') (find_last_byte entry b':'))))
  unfolding normal_entry
  normal_entry-unbracketed entry h = rw (h, normal_entry) refl

  first_byte :
      (front : Front) (c : ℕ) (s : Bytes) (port : Option Bytes)
      → IsName c s
      → (get_or ((front_text front ++ (c ∷ s)) ++ port_text port) 0 0 == b'[') ≡ false
  first_byte bare c s port name = name.no_bracket
  first_byte dot c s port name = refl
  first_byte star_dot c s port name = refl

  -- What stands around a name is taken off.
  normal_entry-text :
      (front : Front) (c : ℕ) (s : Bytes) (port : Option Bytes)
      → IsName c s
      → IsPort port
      → normal_entry lib ((front_text front ++ (c ∷ s)) ++ port_text port) ≡ c ∷ s
  normal_entry-text front c s port name k =
      let text = front_text front ++ (c ∷ s) in
      let colons = Free-append b':' (front_text front) (c ∷ s) (front-Free front) name.no_colon in
      let no_last = name.no_last_dot in
      let whole : without_dot lib (c ∷ s) ≡ c ∷ s = rw no_last refl in
      normal_entry-unbracketed (text ++ port_text port) (first_byte front c s port name)
      ∙ ap (λ (e : Bytes). without_dot lib (without_front_dot lib (without_star lib e)))
          (without_port-text text port colons k)
      ∙ ap (without_dot lib) (without_front front c s name)
      ∙ whole

  no_star_alone :
      (front : Front) (c : ℕ) (s rest : Bytes)
      → (c == b'*') ≡ false
      → (front_text front ++ (c ∷ s)) ++ rest ≢ b'*' ∷ []
  no_star_alone bare c s rest h e =
      let first : c ≡ b'*' = ap (λ (t : Bytes). get_or t 0 0) e in absurd (ground arith)
  no_star_alone dot c s rest h e =
      let first : b'.' ≡ b'*' = ap (λ (t : Bytes). get_or t 0 0) e in absurd (ground arith)
  no_star_alone star_dot c s rest h e =
      let size : length (b'*' ∷ b'.' ∷ ((c ∷ s) ++ rest)) ≡ 1 = ap length e in absurd (omega arith)

  something : (front : Front) (c : ℕ) (s rest : Bytes) → (front_text front ++ (c ∷ s)) ++ rest ≢ []
  something bare c s rest e = absurd (omega (arith, ap length e))
  something dot c s rest e = absurd (omega (arith, ap length e))
  something star_dot c s rest e = absurd (omega (arith, ap length e))

  -- An entry that, without the blanks around it, is a name with nothing, "." or "*." in front of it
  -- and nothing or a port behind a colon at its end, lets past exactly the hosts that are the name
  -- or end in a full stop and the name, in ASCII letters of either case; and an entry that is a
  -- star lets past every host. The name is not empty, does not start with '[', '*' or '.', has no
  -- colon, and does not end in a full stop.
  pub entry_bypasses-name :
      (host entry other : Bytes) (front : Front) (c : ℕ) (s : Bytes) (port : Option Bytes)
      → IsName c s
      → IsPort port
      → trim_blanks lib entry ≡ (front_text front ++ (c ∷ s)) ++ port_text port
      → trim_blanks lib other ≡ b'*' ∷ []
      → ((entry_bypasses lib host entry ≡ true) ↔ Covers host (c ∷ s))
        × (entry_bypasses lib host other ≡ true)
  entry_bypasses-name host entry other front c s port name k text star =
      let whole = entry_bypasses_iff lib host entry in
      let rest = port_text port in
      let named : normal_entry lib (trim_blanks lib entry) ≡ c ∷ s =
        ap (normal_entry lib) text ∙ normal_entry-text front c s port name k in
      (
        (
          λ h. elim (whole.0 h) [
            | inl e ↦ absurd (no_star_alone front c s rest name.no_star (sym text ∙ e))
            | inr (some_entry, some_name, covered) ↦ subst (Covers host) named covered
          ],
          λ covered. whole.1 (
              inr (
                (λ e. something front c s rest (sym text ∙ e)),
                (λ e. absurd (omega (arith, ap length (sym named ∙ e)))),
                subst (Covers host) (sym named) covered,
              )),
        ),
        (entry_bypasses_iff lib host other).1 (inl star),
      )
