-- ===== src/Span/Slices.antt =====
-- Slices as the code takes them: a prefix, and a middle part of three.
use http_c.Prelude.{
  ℕ, ◌≤◌, ◌≡◌, ap, ◌∙◌, ◌++◌, arith, length, take, length-append, take-append, drop-append,
}
use http_c.Common.{Bytes}
use http_c.Span.{CommonLib}

module _ (lib : CommonLib) where
  pub slice_prefix : (s : Bytes) (n : ℕ) → n ≤ length s → lib.slice s 0 n ≡ take n s
  slice_prefix s n h = lib.slice_lem s 0 n (omega arith)

  pub slice_front : (a b : Bytes) (n : ℕ) → n ≡ length a → lib.slice (a ++ b) 0 n ≡ a
  slice_front a b n h =
      slice_prefix (a ++ b) n (omega (arith, length-append a b)) ∙ take-append n a b h

  pub slice_middle :
      (a b c : Bytes) (o n : ℕ) → o ≡ length a → n ≡ length b → lib.slice (a ++ (b ++ c)) o n ≡ b
  slice_middle a b c o n h k =
      lib.slice_lem (a ++ (b ++ c)) o n (omega (arith, length-append a (b ++ c), length-append b c))
      ∙ ap (take n) (drop-append o a (b ++ c) h)
      ∙ take-append n b c k

  pub slice_rest : (a b : Bytes) (o : ℕ) → o ≡ length a → lib.slice_to_end (a ++ b) o ≡ b
  slice_rest a b o h =
      lib.slice_to_end_lem (a ++ b) o (omega (arith, length-append a b)) ∙ drop-append o a b h
