-- ===== src/Base64.antt =====
-- libbase/base64.cpp. A byte array is the list of its `nSrcLen` bytes, and the result is what is
-- stored before the closing zero byte, or `none` for the return value -1.
pub mod RoundTrip
use echo_server_cpp.Prelude.{
  ℕ, ◌+◌, ◌*◌, ◌/◌, ◌%◌, ◌^◌, Option, none, some, List, [], ◌∷◌, ◌++◌, get_or, ltb, ◌==◌,
  if◌then◌else◌,
}

-- The characters of myBase64Table.
abbrev table : List ℕ
table =
    65 ∷ 66 ∷ 67 ∷ 68 ∷ 69 ∷ 70 ∷ 71 ∷ 72 ∷ 73 ∷ 74 ∷ 75 ∷ 76 ∷ 77 ∷ 78 ∷ 79 ∷ 80 ∷ 81 ∷ 82 ∷ 83
    ∷ 84 ∷ 85 ∷ 86 ∷ 87 ∷ 88 ∷ 89 ∷ 90 ∷ 97 ∷ 98 ∷ 99 ∷ 100 ∷ 101 ∷ 102 ∷ 103 ∷ 104 ∷ 105 ∷ 106
    ∷ 107 ∷ 108 ∷ 109 ∷ 110 ∷ 111 ∷ 112 ∷ 113 ∷ 114 ∷ 115 ∷ 116 ∷ 117 ∷ 118 ∷ 119 ∷ 120 ∷ 121 ∷ 122
    ∷ 48 ∷ 49 ∷ 50 ∷ 51 ∷ 52 ∷ 53 ∷ 54 ∷ 55 ∷ 56 ∷ 57 ∷ 43 ∷ 47 ∷ []

abbrev pub pad : ℕ
pad = b'='

-- myBase64Map: 255 marks a character to skip, 254 the padding.
abbrev map_table : List ℕ
map_table =
    255 ∷ 255 ∷ 255 ∷ 255 ∷ 255 ∷ 255 ∷ 255 ∷ 255 ∷ 255 ∷ 255 ∷ 255 ∷ 255 ∷ 255 ∷ 255 ∷ 255 ∷ 255
    ∷ 255 ∷ 255 ∷ 255 ∷ 255 ∷ 255 ∷ 255 ∷ 255 ∷ 255 ∷ 255 ∷ 255 ∷ 255 ∷ 255 ∷ 255 ∷ 255 ∷ 255 ∷ 255
    ∷ 255 ∷ 255 ∷ 255 ∷ 255 ∷ 255 ∷ 255 ∷ 255 ∷ 255 ∷ 255 ∷ 255 ∷ 255 ∷ 62 ∷ 255 ∷ 255 ∷ 255 ∷ 63
    ∷ 52 ∷ 53 ∷ 54 ∷ 55 ∷ 56 ∷ 57 ∷ 58 ∷ 59 ∷ 60 ∷ 61 ∷ 255 ∷ 255 ∷ 255 ∷ 254 ∷ 255 ∷ 255 ∷ 255 ∷ 0
    ∷ 1 ∷ 2 ∷ 3 ∷ 4 ∷ 5 ∷ 6 ∷ 7 ∷ 8 ∷ 9 ∷ 10 ∷ 11 ∷ 12 ∷ 13 ∷ 14 ∷ 15 ∷ 16 ∷ 17 ∷ 18 ∷ 19 ∷ 20 ∷ 21
    ∷ 22 ∷ 23 ∷ 24 ∷ 25 ∷ 255 ∷ 255 ∷ 255 ∷ 255 ∷ 255 ∷ 255 ∷ 26 ∷ 27 ∷ 28 ∷ 29 ∷ 30 ∷ 31 ∷ 32 ∷ 33
    ∷ 34 ∷ 35 ∷ 36 ∷ 37 ∷ 38 ∷ 39 ∷ 40 ∷ 41 ∷ 42 ∷ 43 ∷ 44 ∷ 45 ∷ 46 ∷ 47 ∷ 48 ∷ 49 ∷ 50 ∷ 51 ∷ 255
    ∷ 255 ∷ 255 ∷ 255 ∷ 255 ∷ 255 ∷ 255 ∷ 255 ∷ 255 ∷ 255 ∷ 255 ∷ 255 ∷ 255 ∷ 255 ∷ 255 ∷ 255 ∷ 255
    ∷ 255 ∷ 255 ∷ 255 ∷ 255 ∷ 255 ∷ 255 ∷ 255 ∷ 255 ∷ 255 ∷ 255 ∷ 255 ∷ 255 ∷ 255 ∷ 255 ∷ 255 ∷ 255
    ∷ 255 ∷ 255 ∷ 255 ∷ 255 ∷ 255 ∷ 255 ∷ 255 ∷ 255 ∷ 255 ∷ 255 ∷ 255 ∷ 255 ∷ 255 ∷ 255 ∷ 255 ∷ 255
    ∷ 255 ∷ 255 ∷ 255 ∷ 255 ∷ 255 ∷ 255 ∷ 255 ∷ 255 ∷ 255 ∷ 255 ∷ 255 ∷ 255 ∷ 255 ∷ 255 ∷ 255 ∷ 255
    ∷ 255 ∷ 255 ∷ 255 ∷ 255 ∷ 255 ∷ 255 ∷ 255 ∷ 255 ∷ 255 ∷ 255 ∷ 255 ∷ 255 ∷ 255 ∷ 255 ∷ 255 ∷ 255
    ∷ 255 ∷ 255 ∷ 255 ∷ 255 ∷ 255 ∷ 255 ∷ 255 ∷ 255 ∷ 255 ∷ 255 ∷ 255 ∷ 255 ∷ 255 ∷ 255 ∷ 255 ∷ 255
    ∷ 255 ∷ 255 ∷ 255 ∷ 255 ∷ 255 ∷ 255 ∷ 255 ∷ 255 ∷ 255 ∷ 255 ∷ 255 ∷ 255 ∷ 255 ∷ 255 ∷ 255 ∷ 255
    ∷ 255 ∷ 255 ∷ 255 ∷ 255 ∷ 255 ∷ 255 ∷ 255 ∷ 255 ∷ 255 ∷ 255 ∷ 255 ∷ 255 ∷ 255 ∷ 255 ∷ 255 ∷ 255
    ∷ 255 ∷ 255 ∷ 255 ∷ 255 ∷ []

pub symbol : ℕ → ℕ
symbol i = get_or table i 0

pub code_of : ℕ → ℕ
code_of c = get_or map_table c 0

-- The indices of the four characters for three bytes; `|` joins disjoint bits.
abbrev pub first : ℕ → ℕ
first c1 = c1 / 4

abbrev pub second : ℕ → ℕ → ℕ
second c1 c2 = (c1 * 16 + c2 / 16) % 64

abbrev pub third : ℕ → ℕ → ℕ
third c2 c3 = (c2 * 4 + c3 / 64) % 64

abbrev pub fourth : ℕ → ℕ
fourth c3 = c3 % 64

-- The groups of three, then the rest of one or two bytes.
pub encode_groups : List ℕ → List ℕ
encode_groups [] = []
encode_groups (c1 ∷ []) = symbol (first c1) ∷ symbol (second c1 0) ∷ symbol (third 0 0) ∷ pad ∷ []
encode_groups (c1 ∷ c2 ∷ []) =
    symbol (first c1) ∷ symbol (second c1 c2) ∷ symbol (third c2 0) ∷ pad ∷ []
encode_groups (c1 ∷ c2 ∷ c3 ∷ rest) =
    symbol (first c1)
    ∷ symbol (second c1 c2)
    ∷ symbol (third c2 c3)
    ∷ symbol (fourth c3)
    ∷ encode_groups rest

unfoldable pub encode_base64 : List ℕ → Option (List ℕ)
unfolding encode_groups symbol
encode_base64 [] = none
encode_base64 (c ∷ cs) = some (encode_groups (c ∷ cs))

-- The bytes that a full group of four stores.
pub flush : ℕ → ℕ → List ℕ
flush ncode dc =
    ncode / 2 ^ 16 % 256
    ∷ ((if ltb dc 2 then ncode / 2 ^ 8 % 256 ∷ [] else [])
        ++ (if ltb dc 1 then ncode % 256 ∷ [] else []))

-- The loop of DecodeBase64 over the characters left. `ncode` is an `unsigned long`.
pub decode_loop : List ℕ → ℕ → ℕ → ℕ → List ℕ → List ℕ
decode_loop [] ncode dc nc out = out
decode_loop (c ∷ cs) ncode dc nc out =
    let pc = code_of c in
    let skip = decode_loop cs ncode dc nc out in
    let dc' : ℕ = if pc == 0xfe then dc + 1 else dc in
    let ncode' : ℕ = (ncode * 64 + (if pc == 0xfe then 0 else pc)) % 2 ^ 64 in
    let full = decode_loop cs 0 dc' 0 (out ++ flush ncode' dc') in
    let more = decode_loop cs ncode' dc' (nc + 1) out in
    if pc == 0xff then skip else if nc + 1 == 4 then full else more

unfoldable pub decode_base64 : List ℕ → Option (List ℕ)
unfolding decode_loop
decode_base64 [] = none
decode_base64 (c ∷ cs) = some (decode_loop (c ∷ cs) 0 0 0 [])
