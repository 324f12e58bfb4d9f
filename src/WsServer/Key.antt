-- ===== src/WsServer/Key.antt =====
-- The handshake of dashboard/websocket/WsServer.cpp: the key of the request and the answer to it.
use mathlib.Core.List.{map-append}
use event_driven_trading_sys.Base.{
  ℕ, zero, suc, ◌+◌, ◌*◌, ◌/◌, ◌≤◌, ◌<◌, ◌≡◌, refl, ◌∙◌, ap, true, false, ◌==◌, List, [], ◌∷◌, ◌++◌,
  map, some, length, length-append, replicate, take, drop, arith,
}
use event_driven_trading_sys.Base64.{base64_encode}
use event_driven_trading_sys.Base64.RoundTrip.{base64_decode, base64_decode-base64_encode}
use event_driven_trading_sys.Sha1.{sha1}
use event_driven_trading_sys.Sha1.Padding.{length-sha1}
use event_driven_trading_sys.Text.{starts_with, shift, find}
use event_driven_trading_sys.WsServer.{
  ws_guid, marker, crlf, tolower, skip_spaces, to_line_end, extract_ws_key, compute_accept,
}

length-base64_encode : (xs : List ℕ) → length (base64_encode xs) ≡ (length xs + 2) / 3 * 4
unfolding base64_encode
length-base64_encode [] = refl
length-base64_encode (x ∷ []) = refl
length-base64_encode (x ∷ y ∷ []) = refl
length-base64_encode (x ∷ y ∷ z ∷ xs) = omega (arith, length-base64_encode xs)

-- The accept key of any key has 28 characters, and a decoder of base64 gets from it the SHA-1
-- digest of the key followed by the server's GUID.
pub compute_accept_lem :
    (key : List ℕ)
    → (length (compute_accept key) ≡ 28)
      × (base64_decode (compute_accept key) ≡ sha1 (key ++ ws_guid))
unfolding compute_accept
compute_accept_lem key =
    let digest = length-sha1 (key ++ ws_guid) in
    let hash = sha1 (key ++ ws_guid) in
    (omega (arith, length-base64_encode hash, digest.0), base64_decode-base64_encode hash digest.1)

-- The pattern stands at no position below `n`.
abbrev pub IsAbsent : List ℕ → ℕ → List ℕ → Type 0
IsAbsent pat n s = (i : ℕ) → i < n → starts_with pat (drop i s) ≡ false

find_first :
    (pat s : List ℕ) (n : ℕ)
    → IsAbsent pat n s
    → starts_with pat (drop n s) ≡ true
    → n ≤ length s
    → find pat s ≡ some n
unfolding find
find_first pat [] zero absent here h = ground arith
find_first pat [] (suc n) absent here h = absurd (omega arith)
find_first pat (c ∷ s) zero absent here h = ground arith
find_first pat (c ∷ s) (suc n) absent here h =
    rw (absent 0 (omega arith))
      (ap shift (find_first pat s n (λ i k. absent (suc i) (omega (arith, k))) here (omega arith)))

starts_with-append : (pat s : List ℕ) → starts_with pat (pat ++ s) ≡ true
unfolding starts_with
starts_with-append [] s = refl
starts_with-append (p ∷ pat) s = ground (arith, starts_with-append pat s)

-- No character of a value ends its line, and its first is not a space.
abbrev pub IsOneLine : List ℕ → Type 0
IsOneLine [] = Unit
IsOneLine (c ∷ s) = ((c == 13) ≡ false) × IsOneLine s

abbrev pub IsTrimmed : List ℕ → Type 0
IsTrimmed [] = Unit
IsTrimmed (c ∷ s) = (c == 32) ≡ false

skip_spaces-replicate :
    (k : ℕ) (key rest : List ℕ)
    → IsTrimmed key
    → skip_spaces (replicate k 32 ++ (key ++ (crlf ++ rest))) ≡ key ++ (crlf ++ rest)
unfolding skip_spaces replicate
skip_spaces-replicate zero [] rest h = refl
skip_spaces-replicate zero (c ∷ key) rest h = rw h
skip_spaces-replicate (suc k) key rest h = skip_spaces-replicate k key rest h

find-crlf :
    (key rest : List ℕ) → IsOneLine key → find crlf (key ++ (crlf ++ rest)) ≡ some (length key)
unfolding find
find-crlf [] rest h = refl
find-crlf (c ∷ key) rest h = ground (arith, h.0, find-crlf key rest h.1)

take-append : (xs ys : List ℕ) → take (length xs) (xs ++ ys) ≡ xs
take-append [] ys = refl
take-append (x ∷ xs) ys = ap (◌∷◌ x) (take-append xs ys)

drop-append : (xs ys : List ℕ) (n m : ℕ) → n ≡ length xs + m → drop n (xs ++ ys) ≡ drop m ys
drop-append [] ys n m h = ap (λ t. drop t ys) (omega arith)
drop-append (x ∷ xs) ys zero m h = absurd (omega arith)
drop-append (x ∷ xs) ys (suc n) m h = drop-append xs ys n m (omega arith)

length-map : (f : ℕ → ℕ) (xs : List ℕ) → length (map f xs) ≡ length xs
length-map f [] = refl
length-map f (x ∷ xs) = ap suc (length-map f xs)

find-marker :
    (before name tail : List ℕ)
    → map tolower name ≡ marker
    → IsAbsent marker (length before) (map tolower (before ++ (name ++ tail)))
    → find marker (map tolower (before ++ (name ++ tail))) ≡ some (length before)
find-marker before name tail named absent =
    find_first marker (map tolower (before ++ (name ++ tail))) (length before) absent here bound
  where
    parts :
        map tolower (before ++ (name ++ tail)) ≡ map tolower before ++ (marker ++ map tolower tail)
    parts =
        map-append tolower before (name ++ tail)
        ∙ ap (λ t. map tolower before ++ t)
            (map-append tolower name tail ∙ ap (λ t. t ++ map tolower tail) named)

    here : starts_with marker (drop (length before) (map tolower (before ++ (name ++ tail)))) ≡ true
    here =
        ap (λ t. starts_with marker (drop (length before) t)) parts
        ∙ ap (starts_with marker) (
            drop-append (map tolower before) (marker ++ map tolower tail) (length before) 0
              (omega (arith, length-map tolower before)))
        ∙ starts_with-append marker (map tolower tail)

    bound : length before ≤ length (map tolower (before ++ (name ++ tail)))
    bound =
        omega (
          arith,
          length-map tolower (before ++ (name ++ tail)),
          length-append before (name ++ tail),
        )

-- `extract_ws_key` looks for the first place of a request where `sec-websocket-key:` stands but
-- for capitals, be it at the start of a line or behind other characters: it gives what follows
-- there, without the spaces before it and up to the end of the line, for a value that does not
-- start with a space and has no carriage return.
pub extract_ws_key_lem :
    (before name : List ℕ) (k : ℕ) (key rest : List ℕ)
    → map tolower name ≡ marker
    → IsAbsent marker
        (length before)
        (map tolower (before ++ (name ++ (replicate k 32 ++ (key ++ (crlf ++ rest))))))
    → IsTrimmed key
    → IsOneLine key
    → extract_ws_key (before ++ (name ++ (replicate k 32 ++ (key ++ (crlf ++ rest))))) ≡ key
unfolding extract_ws_key to_line_end
extract_ws_key_lem before name k key rest named absent trimmed line =
    let tail = replicate k 32 ++ (key ++ (crlf ++ rest)) in
    rw (find-marker before name tail named absent, extract_ws_key)
      (ap to_line_end (ap skip_spaces (after tail) ∙ skip_spaces-replicate k key rest trimmed)
        ∙ line_end)
  where
    after : (tail : List ℕ) → drop (length before + length marker) (before ++ (name ++ tail)) ≡ tail
    after tail =
        drop-append before (name ++ tail) (length before + length marker) (length marker) refl
        ∙ drop-append name tail (length marker) 0
            (omega (arith, length-map tolower name, ap length named))

    line_end : to_line_end (key ++ (crlf ++ rest)) ≡ key
    line_end = rw (find-crlf key rest line, to_line_end) (take-append key (crlf ++ rest))
