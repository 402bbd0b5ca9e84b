-- ===== src/Sync/Phrase.antt =====
-- web/src/sync/sas.ts: the phrase of six words that both sides of a pairing show. The hash is held as
-- the number below 2 ^ 32 that its 32 bits say.
use grandpa_bob.Base.{
  ℕ, zero, suc, ◌-◌, ◌*◌, ◌/◌, ◌%◌, ◌≡◌, ap, not, List, [], ◌∷◌, ◌++◌, map, filter, ltb, ◌==◌, drop,
  length, if◌then◌else◌,
}
use Prim.Native.Nat.{bit_xor}
use grandpa_bob.Base.Text.{Text, text, text_eq, starts_with, split, join, trim}
use grandpa_bob.Base.Js.{Js}
use grandpa_bob.Base.Sort.{sort}
use grandpa_bob.Base.Sort.Unique.{after, add_all, sort-add_all_append}

-- `sdp.split(/\r?\n/)`: the parts between line feeds, and but for the last less a carriage return.
unfoldable pub without_cr : Text → Text
without_cr [] = []
without_cr (c ∷ []) = if c == 13 then [] else c ∷ []
without_cr (c ∷ d ∷ s) = c ∷ without_cr (d ∷ s)

unfoldable pub lines_of : List Text → List Text
unfolding without_cr
lines_of [] = []
lines_of (w ∷ []) = w ∷ []
lines_of (w ∷ v ∷ ws) = without_cr w ∷ lines_of (v ∷ ws)

abbrev pub marker : Text
marker = text "a=fingerprint:"

unfoldable pub fingerprints : Js → Text → List Text
unfolding lines_of split starts_with
fingerprints js sdp =
    filter (λ v. not (text_eq v []))
      (map (λ line. js.to_upper (trim (drop (length marker) line)))
        (filter (starts_with marker) (lines_of (split 10 sdp))))

unfoldable pub seed_of : List Text → List Text → Text
unfolding sort add_all join
seed_of mine theirs = join 124 (sort after (add_all (mine ++ theirs) []))

abbrev pub word_size : ℕ
word_size = 0x100000000

-- `Math.imul`
unfoldable pub imul : ℕ → ℕ → ℕ
imul a b = (a * b) % word_size

unfoldable pub hash_text : Text → ℕ → ℕ
unfolding imul
hash_text [] h = h
hash_text (c ∷ s) h = hash_text s (imul (bit_xor h c) 16777619)

-- `h ^ (h >>> 13)`, multiplied
unfoldable pub stir : ℕ → ℕ
unfolding imul
stir h = imul (bit_xor h (h / 8192)) 1274126177

-- `Math.abs(h)` of the signed number
unfoldable pub magnitude : ℕ → ℕ
magnitude h = if ltb h 0x80000000 then h else word_size - h

unfoldable pub words : List Text
words =
    text "anchor"
    ∷ text "basil"
    ∷ text "cedar"
    ∷ text "delta"
    ∷ text "ember"
    ∷ text "fjord"
    ∷ text "granite"
    ∷ text "harbor"
    ∷ text "igloo"
    ∷ text "jasper"
    ∷ []

unfoldable pub word_at : ℕ → List Text → Text
word_at n [] = []
word_at zero (w ∷ ws) = w
word_at (suc n) (w ∷ ws) = word_at n ws

unfoldable pub draw : ℕ → ℕ → List Text
unfolding stir magnitude words word_at
draw zero h = []
draw (suc n) h = let next = stir h in word_at (magnitude next % length words) words ∷ draw n next

unfoldable pub phrase_of : Text → Text
unfolding draw hash_text join
phrase_of seed = join 45 (draw 6 (hash_text seed 2166136261))

unfoldable pub pairing_phrase : Js → Text → Text → Text
unfolding fingerprints seed_of phrase_of
pairing_phrase js local_sdp remote_sdp =
    phrase_of (seed_of (fingerprints js local_sdp) (fingerprints js remote_sdp))

-- Both sides of a connection, each with its own description as the local one, show the same phrase.
pub pairing_phrase_comm : (js : Js) (a b : Text) → pairing_phrase js a b ≡ pairing_phrase js b a
unfolding pairing_phrase seed_of
pairing_phrase_comm js a b =
    ap (λ l. phrase_of (join 124 l)) (sort-add_all_append (fingerprints js a) (fingerprints js b))
