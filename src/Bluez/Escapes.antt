-- ===== src/Bluez/Escapes.antt =====
-- strip_ansi of bluez_scanner.c on coloured text.
use sensor_lib.Prelude.{
  ℕ, ◌≡◌, ◌≢◌, refl, ap, ◌∙◌, true, false, List, [], ◌∷◌, ◌++◌, arith, Text, ◌==◌, All,
}
use sensor_lib.Bluez.Line.{is_final, strip, strip_ansi}

-- A piece of what a terminal is sent: a byte, or an escape sequence with its parameters and its end
pub data Piece : Type 0 where
  byte : ℕ → Piece
  escape : Text → ℕ → Piece

-- What is sent, and what is to be seen
abbrev pub sent_text : List Piece → Text
sent_text [] = []
sent_text (byte c ∷ ps) = c ∷ sent_text ps
sent_text (escape s e ∷ ps) = 27 ∷ b'[' ∷ (s ++ e ∷ sent_text ps)

abbrev pub seen_text : List Piece → Text
seen_text [] = []
seen_text (byte c ∷ ps) = c ∷ seen_text ps
seen_text (escape s e ∷ ps) = seen_text ps

-- No byte that is sent to be seen is ESC; a sequence ends with its first byte from '@' to '~'.
abbrev pub IsPiece : Piece → Type 0
IsPiece (byte c) = c ≢ 27
IsPiece (escape s e) = All (λ c. is_final c ≡ false) s × (is_final e ≡ true)

strip-inside :
    (s : Text) (e : ℕ) (t : Text)
    → All (λ c. is_final c ≡ false) s
    → is_final e ≡ true
    → strip true (s ++ e ∷ t) ≡ strip false t
unfolding strip
strip-inside [] e t h f = rw f
strip-inside (c ∷ s) e t h f = rw (h.0) (strip-inside s e t h.1 f)

strip-byte : (c : ℕ) (t : Text) → c ≢ 27 → strip false (c ∷ t) ≡ c ∷ strip false t
unfolding strip
strip-byte c [] n = refl
strip-byte c (d ∷ t) n = let e : (c == 27) ≡ false = ground arith in rw e

-- strip_ansi leaves exactly the bytes that are to be seen, of any mixture of such bytes and complete
-- escape sequences.
pub strip_ansi-sent_text :
    (ps : List Piece) → All IsPiece ps → strip_ansi (sent_text ps) ≡ seen_text ps
unfolding strip_ansi
strip_ansi-sent_text [] h = unfold strip in refl
strip_ansi-sent_text (byte c ∷ ps) h =
    strip-byte c (sent_text ps) h.0 ∙ ap (◌∷◌ c) (strip_ansi-sent_text ps h.1)
strip_ansi-sent_text (escape s e ∷ ps) h =
    unfold strip in (strip-inside s e (sent_text ps) h.0.0 h.0.1 ∙ strip_ansi-sent_text ps h.1)
