-- ===== src/Network/Address.antt =====
-- src/authz/network-guard.ts: IP addresses as numbers, and the test of a CIDR range. `is_ipv4` and
-- `is_ipv6` are those of `node:net`, for an address without a zone index (`%eth0`).
use shld.Prelude.{
  ℕ, zero, suc, ◌+◌, ◌-◌, ◌*◌, ◌/◌, ◌%◌, ◌^◌, Bool, true, false, not, ◌&&◌, ◌||◌, Option, none,
  some, List, [], ◌∷◌, ◌++◌, leb, ◌==◌, if◌then◌else◌, is_some, get_or, length, all, keep,
}
use shld.Prelude.Split.{split_on}
use shld.Action.{Result, ok, err}
use shld.Domain.Errors.{plain_error}

abbrev pub dot : ℕ
dot = b'.'

abbrev pub colon : ℕ
colon = b':'

abbrev pub is_digit : ℕ → Bool
is_digit c = leb b'0' c && leb c b'9'

abbrev pub is_hex_digit : ℕ → Bool
is_hex_digit c = is_digit c || (leb b'a' c && leb c b'f') || (leb b'A' c && leb c b'F')

-- `Number(text)`, of decimal digits
unfoldable pub to_decimal : ℕ → List ℕ → ℕ
to_decimal acc [] = acc
to_decimal acc (c ∷ cs) = to_decimal (acc * 10 + (c - b'0')) cs

abbrev pub hex_value : ℕ → ℕ
hex_value c = if is_digit c then c - b'0' else if leb b'a' c then c - 87 else c - 55

-- `parseInt(text, 16)`, of hexadecimal digits
unfoldable pub to_hex : ℕ → List ℕ → ℕ
to_hex acc [] = acc
to_hex acc (c ∷ cs) = to_hex (acc * 16 + hex_value c) cs

-- a number up to 255 with no leading zero
unfoldable pub is_octet : List ℕ → Bool
unfolding to_decimal
is_octet [] = false
is_octet (a ∷ []) = is_digit a
is_octet (a ∷ cs) =
    not (a == b'0')
    && all is_digit (a ∷ cs)
    && leb (length (a ∷ cs)) 3
    && leb (to_decimal 0 (a ∷ cs)) 255

unfoldable pub is_ipv4 : List ℕ → Bool
unfolding is_octet split_on
is_ipv4 ip = let parts = split_on dot ip in length parts == 4 && all is_octet parts

-- `parts.reduce((acc, part) => (acc << 8n) + BigInt(Number(part)), 0n)`
unfoldable pub shift_octets : ℕ → List (List ℕ) → ℕ
unfolding to_decimal
shift_octets acc [] = acc
shift_octets acc (part ∷ parts) = shift_octets (acc * 2 ^ 8 + to_decimal 0 part) parts

unfoldable pub ipv4_to_big_int : List ℕ → ℕ
unfolding shift_octets split_on
ipv4_to_big_int ip = shift_octets 0 (split_on dot ip)

abbrev pub non_empty : List ℕ → Bool
non_empty [] = false
non_empty (c ∷ cs) = true

-- all of the text is `\d+\.\d+\.\d+\.\d+`
unfoldable pub is_dotted : List ℕ → Bool
unfolding split_on
is_dotted text =
    let parts = split_on dot text in
    length parts == 4 && all (λ p. non_empty p && all is_digit p) parts

abbrev pub after_front : ℕ → Option (List ℕ × List ℕ) → Option (List ℕ × List ℕ)
after_front c none = none
after_front c (some (front, v4)) = some (c ∷ front, v4)

-- `ip.match(/(\d+\.\d+\.\d+\.\d+)$/)`: what stands before the leftmost match, and the match
unfoldable pub dotted_tail : List ℕ → Option (List ℕ × List ℕ)
unfolding is_dotted
dotted_tail [] = none
dotted_tail (c ∷ cs) =
    let rest = dotted_tail cs in
    if is_dotted (c ∷ cs) then some ([], c ∷ cs) else after_front c rest

abbrev pub hex_char : ℕ → ℕ
hex_char d = if leb 10 d then d + 87 else d + b'0'

-- four hexadecimal digits of a number below 2 ^ 16
abbrev pub hex4 : ℕ → List ℕ
hex4 n =
    hex_char (n / 4096) ∷ hex_char (n / 256 % 16) ∷ hex_char (n / 16 % 16) ∷ hex_char (n % 16) ∷ []

-- the last 32 bits in hexadecimal, as two groups
unfoldable pub in_groups : ℕ → List ℕ
in_groups v = hex4 (v / 2 ^ 16) ++ colon ∷ hex4 (v % 2 ^ 16)

abbrev pub rewritten : List ℕ → Option (List ℕ × List ℕ) → List ℕ
rewritten ip none = ip
rewritten ip (some (front, v4)) = front ++ in_groups (ipv4_to_big_int v4)

-- lines 10 to 15
unfoldable pub normalized : List ℕ → List ℕ
unfolding dotted_tail ipv4_to_big_int in_groups
normalized ip = rewritten ip (dotted_tail ip)

-- what stands before and after the first `::`; an address has no second one
unfoldable pub split_gap : List ℕ → Option (List ℕ × List ℕ)
split_gap [] = none
split_gap (c ∷ []) = none
split_gap (c ∷ d ∷ cs) =
    let rest = split_gap (d ∷ cs) in
    if c == colon && d == colon then some ([], cs) else after_front c rest

-- `text.split(":").filter(Boolean)`
unfoldable pub colon_parts : List ℕ → List (List ℕ)
unfolding split_on
colon_parts text = keep non_empty (split_on colon text)

abbrev pub zeros : ℕ → List (List ℕ)
zeros zero = []
zeros (suc n) = (b'0' ∷ []) ∷ zeros n

abbrev pub fill_gap : List (List ℕ) → List (List ℕ) → List (List ℕ)
fill_gap head tail = head ++ (zeros (8 - length head - length tail) ++ tail)

-- `headParts`, the missing groups, `tailParts`
unfoldable pub all_parts : List ℕ → Option (List ℕ × List ℕ) → List (List ℕ)
unfolding colon_parts
all_parts text none = fill_gap (colon_parts text) []
all_parts text (some (head, tail)) = fill_gap (colon_parts head) (colon_parts tail)

-- `allParts.reduce((acc, part) => (acc << 16n) + BigInt(parseInt(part || "0", 16)), 0n)`
unfoldable pub shift_groups : ℕ → List (List ℕ) → ℕ
unfolding to_hex
shift_groups acc [] = acc
shift_groups acc (part ∷ parts) = shift_groups (acc * 2 ^ 16 + to_hex 0 part) parts

unfoldable pub ipv6_to_big_int : List ℕ → ℕ
unfolding normalized split_gap all_parts shift_groups
ipv6_to_big_int ip = let text = normalized ip in shift_groups 0 (all_parts text (split_gap text))

abbrev pub is_group : List ℕ → Bool
is_group part = non_empty part && all is_hex_digit part && leb (length part) 4

abbrev pub one_more : Option ℕ → Option ℕ
one_more none = none
one_more (some n) = some (suc n)

abbrev pub is_exactly : ℕ → Option ℕ → Bool
is_exactly n none = false
is_exactly n (some m) = m == n

-- how many groups the parts stand for, the last of which may be an IPv4 address
unfoldable pub count_groups : List (List ℕ) → Option ℕ
unfolding is_ipv4
count_groups [] = some 0
count_groups (part ∷ []) = if is_ipv4 part then some 2 else if is_group part then some 1 else none
count_groups (part ∷ parts) =
    let rest = count_groups parts in if is_group part then one_more rest else none

-- the groups of the text before or after the gap
unfoldable pub groups_of : List ℕ → ℕ
unfolding count_groups split_on
groups_of [] = 0
groups_of text = get_or (count_groups (split_on colon text)) 0

unfoldable pub is_ipv6_split : List ℕ → Option (List ℕ × List ℕ) → Bool
unfolding count_groups split_on groups_of
is_ipv6_split ip none = is_exactly 8 (count_groups (split_on colon ip))
is_ipv6_split ip (some (head, tail)) =
    (not (non_empty head) || all is_group (split_on colon head))
    && (not (non_empty tail) || is_some (count_groups (split_on colon tail)))
    && leb (groups_of head + groups_of tail) 7

unfoldable pub is_ipv6 : List ℕ → Bool
unfolding split_gap is_ipv6_split
is_ipv6 ip = is_ipv6_split ip (split_gap ip)

-- the value and the number of its bits; `none` is a throw
unfoldable pub ip_to_big_int : List ℕ → Option (ℕ × ℕ)
unfolding is_ipv4 is_ipv6 ipv4_to_big_int ipv6_to_big_int
ip_to_big_int ip =
    if is_ipv4 ip
    then some (ipv4_to_big_int ip, 32)
    else if is_ipv6 ip
    then some (ipv6_to_big_int ip, 128)
    else none

-- `ip` and the range agree on the range's first bits; no prefix is longer than its address
abbrev pub same_prefix : Option (ℕ × ℕ) → Option (ℕ × ℕ) → ℕ → Result Bool
same_prefix none range prefix = err plain_error
same_prefix (some ip) none prefix = err plain_error
same_prefix (some (value, bits)) (some (range, range_bits)) prefix =
    ok (bits == range_bits && value / 2 ^ (bits - prefix) == range / 2 ^ (bits - prefix))

abbrev pub first_part : List (List ℕ) → List ℕ
first_part [] = []
first_part (part ∷ parts) = part

abbrev pub second_part : List (List ℕ) → List ℕ
second_part (part ∷ other ∷ parts) = other
second_part _ = []

unfoldable pub in_cidr : List ℕ → List ℕ → Result Bool
unfolding ip_to_big_int split_on to_decimal
in_cidr ip cidr =
    let parts = split_on b'/' cidr in
    same_prefix (ip_to_big_int ip) (ip_to_big_int (first_part parts))
      (to_decimal 0 (second_part parts))
