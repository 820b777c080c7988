-- ===== src/CommandLine/Words.antt =====
-- The words of the command line.
use os_pintos.Base.{
  ℕ, zero, suc, ◌+◌, ◌*◌, ◌/◌, ◌^◌, ◌≤◌, ◌<◌, ◌≡◌, refl, ap, some, List, [], ◌∷◌, ◌++◌, All, length,
  length-append, arith, none_below,
}
use os_pintos.Base.Int.{pos, wrap32_id}
use os_pintos.Boot.{Text, finished, undefined}
use os_pintos.CommandLine.{skip_word, c_string, split_words, read_words, read_command_line}

-- A word has a byte, and none that is 0.
abbrev pub IsWord : Text → Type 0
IsWord w = (0 < length w) × All (λ c. 0 < c) w

-- What the loader leaves in the area: the words, each with a NUL, and what follows.
abbrev pub encoded : (words : List Text) (others : List ℕ) → List ℕ
encoded [] others = others
encoded (w ∷ words) others = w ++ (0 ∷ encoded words others)

abbrev pub starts : (words : List Text) (others : List ℕ) → List (List ℕ)
starts [] others = []
starts (w ∷ words) others = encoded (w ∷ words) others ∷ starts words others

skip_word-append : (w : Text) (p : List ℕ) → All (λ c. 0 < c) w → skip_word (w ++ (0 ∷ p)) ≡ p
skip_word-append [] p h = refl
skip_word-append (c ∷ w) p (hc, hw) = ground (arith, skip_word-append w p hw)

c_string-append : (w : Text) (p : List ℕ) → All (λ c. 0 < c) w → c_string (w ++ (0 ∷ p)) ≡ some w
c_string-append [] p h = refl
c_string-append (c ∷ w) p (hc, hw) = rw (c_string-append w p hw) (ground arith)

split_words-encoded :
    (words : List Text) (others : List ℕ) (slots : ℕ)
    → All IsWord words
    → length words < slots
    → split_words (length words) slots (encoded words others) ≡ finished (starts words others) []
unfolding split_words
split_words-encoded [] others (suc slots) h room = refl
split_words-encoded ([] ∷ words) others slots h room = elim (none_below h.0.0) [ ]
split_words-encoded [] others zero h room = elim (none_below room) [ ]
split_words-encoded ((c ∷ w) ∷ words) others zero h room = elim (none_below room) [ ]
split_words-encoded ((c ∷ w) ∷ words) others (suc slots) ((s, hw), h) room =
    rw (skip_word-append (c ∷ w) (encoded words others) hw)
      (rw (split_words-encoded words others slots h (omega arith)) refl)

read_words-starts :
    (words : List Text) (others : List ℕ)
    → All IsWord words
    → read_words (starts words others) ≡ finished words []
unfolding read_words
read_words-starts [] others h = refl
read_words-starts (w ∷ words) others ((s, hw), h) =
    rw (c_string-append w (encoded words others) hw, read_words)
      (rw (read_words-starts words others h) refl)

length-encoded :
    (words : List Text) (others : List ℕ)
    → All IsWord words
    → 2 * length words ≤ length (encoded words others)
length-encoded [] others h = omega arith
length-encoded (w ∷ words) others ((s, hw), h) =
    omega (arith, length-encoded words others h, length-append w (0 ∷ encoded words others))

-- The words of a command line, none of them empty or with a NUL inside, are read back from the area
-- that the loader fills (of fewer than 2^31 bytes), and `argv` has room for them and for the NULL.
pub read_command_line-encoded :
    (words : List Text) (others : List ℕ)
    → All IsWord words
    → length (encoded words others) < 2 ^ 31
    → read_command_line (encoded words others) (length words) ≡ finished words []
unfolding read_command_line
read_command_line-encoded words others h bound =
    let room = length-encoded words others h in
    let slots = length (encoded words others) / 2 + 1 in
    rw (wrap32_id (pos (length words)) (omega arith), read_command_line)
      (rw (split_words-encoded words others slots h (omega arith))
        (rw (read_words-starts words others h) refl))

abbrev pub zeros : ℕ → List ℕ
zeros zero = []
zeros (suc n) = 0 ∷ zeros n

length-zeros : (n : ℕ) → length (zeros n) ≡ n
length-zeros zero = refl
length-zeros (suc n) = ap suc (length-zeros n)

split_words-zeros :
    (count slots n : ℕ) → slots ≤ count → count ≤ n → split_words count slots (zeros n) ≡ undefined
unfolding split_words
split_words-zeros zero zero n room h = refl
split_words-zeros zero (suc slots) n room h = ground arith
split_words-zeros (suc count) zero (suc n) room h = refl
split_words-zeros (suc count) slots zero room h = ground arith
split_words-zeros (suc count) (suc slots) (suc n) room h =
    rw (split_words-zeros count slots n (omega arith) (omega arith)) refl

-- An area that holds only empty words, of one byte each, more than half as many as it has bytes: they
-- pass the test against the end of the area, and are written past the end of `argv`.
pub read_command_line-zeros :
    (n count : ℕ)
    → n < 2 ^ 31
    → n / 2 < count
    → count ≤ n
    → read_command_line (zeros n) count ≡ undefined
unfolding read_command_line
read_command_line-zeros n count bound many fit =
    rw (wrap32_id (pos count) (omega arith), read_command_line)
      (rw (length-zeros n) (rw (split_words-zeros count (n / 2 + 1) n (omega arith) fit) refl))
