-- ===== src/Webhooks.antt =====
-- ops/webhook-destination.mjs: the addresses that a webhook may be sent to. Texts are lists of
-- characters; `isIP`, `Number`, `toLowerCase` and the parser of URLs are the runtime's.
pub mod Rounds
pub mod Targets
mod Tests
use planeo.Prelude.{
  ℕ, zero, suc, ◌+◌, ◌*◌, ◌-◌, ◌^◌, String, Bool, true, false, not, ◌&&◌, ◌||◌, Option, none, some,
  List, [], ◌∷◌, all, any, find, length, codes, is_space, same_units, leb, ltb, ◌==◌, ◌===◌, maybe,
  is_absent, if◌then◌else◌, Result, ok, err, throw_if, ◌>>◌,
}
use planeo.Identity.Passwords.{split_units}

-- `to_octet` is `Number`, where it gives an integer from 0 to 255.
pub record AddressRuntime : Type 0 where
  pub is_ip : List ℕ → ℕ
  pub to_octet : List ℕ → Option ℕ
  pub lower_case : List ℕ → List ℕ

abbrev is_decimal_char : ℕ → Bool
is_decimal_char c = leb b'0' c && leb c b'9'

abbrev digits_value : ℕ → List ℕ → ℕ
digits_value n [] = n
digits_value n (c ∷ digits) = digits_value (n * 10 + (c - b'0')) digits

-- /^\d{1,3}$/ and at most 255
abbrev pub octet_of : List ℕ → Option ℕ
octet_of part =
    if all is_decimal_char part
      && leb 1 (length part)
      && leb (length part) 3
      && leb (digits_value 0 part) 255
    then some (digits_value 0 part)
    else none

abbrev pub four : ℕ → ℕ → ℕ → ℕ → ℕ
four a b c d = ((a * 256 + b) * 256 + c) * 256 + d

abbrev four_of : (List ℕ → Option ℕ) → List (List ℕ) → Option ℕ
four_of read (a ∷ b ∷ c ∷ d ∷ []) = maybe (read a) none (λ w.
    maybe (read b) none
      (λ x. maybe (read c) none (λ y. maybe (read d) none (λ z. some (four w x y z)))))
four_of read _ = none

-- `ipv4`
unfoldable pub ipv4 : List ℕ → Option ℕ
ipv4 value = four_of octet_of (split_units b'.' value)

-- `inRange`, of the number of an address.
abbrev within : ℕ → ℕ → ℕ → Bool
within start end_ n = leb start n && leb n end_

unfoldable pub is_private_number : ℕ → Bool
is_private_number n =
    within 0 0x00ffffff n
    || within 0x0a000000 0x0affffff n
    || within 0x64400000 0x647fffff n
    || within 0x7f000000 0x7fffffff n
    || within 0xa9fe0000 0xa9feffff n
    || within 0xac100000 0xac1fffff n
    || within 0xc0000000 0xc00000ff n
    || within 0xc0000200 0xc00002ff n
    || within 0xc0a80000 0xc0a8ffff n
    || within 0xc6120000 0xc613ffff n
    || within 0xc6336400 0xc63364ff n
    || within 0xcb007100 0xcb0071ff n
    || within 0xe0000000 0xffffffff n
    || within 0x0a800000 0x0a83ffff n
    || within 0xac1e0000 0xac1effff n
    || within 0xb11e0000 0xb11effff n

-- What follows a beginning.
abbrev pub after_start : List ℕ → List ℕ → Option (List ℕ)
after_start [] text = some text
after_start (a ∷ start) [] = none
after_start (a ∷ start) (b ∷ text) =
    let rest = after_start start text in if a == b then rest else none

abbrev starts_with : String → List ℕ → Bool
starts_with start text = not (is_absent (after_start (codes start) text))

abbrev pub drop_spaces : List ℕ → List ℕ
drop_spaces [] = []
drop_spaces (c ∷ text) = let rest = drop_spaces text in if is_space c then rest else c ∷ text

-- A text that ends in white space, without it.
abbrev pub drop_spaces_end : List ℕ → List ℕ
drop_spaces_end [] = []
drop_spaces_end (c ∷ text) =
    let rest = drop_spaces_end text in if is_space c && (length rest == 0) then [] else c ∷ rest

module _ (runtime : AddressRuntime) where
  -- The number of four octets after `::`, which `octets.join` writes and `ipv4` reads again.
  abbrev dotted : List ℕ → Option ℕ
  dotted text = maybe (after_start (codes "::") text) none (λ group.
      if any (λ c. c == b':') group || (length group == 0)
      then none
      else four_of runtime.to_octet (split_units b'.' group))

  abbrev is_private_v6 : List ℕ → Bool
  is_private_v6 text =
      same_units text (codes "::1")
      || starts_with "fc" text
      || starts_with "fd" text
      || starts_with "fe80" text
      || starts_with "ff" text
      || starts_with "0:" text

  -- The tests of a text that is in lower case, without those of the address that is mapped into it.
  unfoldable pub is_private_plain : List ℕ → Bool
  is_private_plain text =
      maybe (ipv4 text)
        (if not (runtime.is_ip text == 6)
          then true
          else maybe (dotted text) (is_private_v6 text) is_private_number)
        is_private_number

  abbrev pub mapped_of : List ℕ → Option (List ℕ)
  mapped_of text = after_start (codes "::ffff:") text

  -- `isPrivateAddress` of a text in lower case, which an address that is mapped is already. It is
  -- called again on a shorter text, so one round for each character is enough.
  unfoldable pub is_private_text : ℕ → List ℕ → Bool
  is_private_text zero text = true
  is_private_text (suc fuel) text =
      let mapped =
        maybe (mapped_of text) false
          (λ rest. if length rest == 0 then false else is_private_text fuel (drop_spaces rest)) in
      if mapped then true else is_private_plain text

  -- `isPrivateAddress`
  unfoldable pub is_private_address : List ℕ → Bool
  is_private_address address =
      let text = runtime.lower_case (drop_spaces_end (drop_spaces address)) in
      is_private_text (length text + 1) text

-- What `new URL` tells of a URL, and none where it throws.
pub record TargetUrl : Type 0 where
  pub protocol : String
  pub username : String
  pub password : String
  pub port : String
  pub hostname : String

pub data TargetError : Type 0 where
  bad_url unsafe_destination : TargetError

abbrev pub is_unsafe_url : TargetUrl → Bool
is_unsafe_url url =
    not (url.protocol === "https:")
    || not (url.username === "")
    || not (url.password === "")
    || not (url.port === "") && not (url.port === "443")
    || (url.hostname === "localhost")

abbrev pub choose : AddressRuntime → List ℕ → List (List ℕ) → List ℕ
choose runtime first rest = maybe (find (λ a. runtime.is_ip a == 4) (first ∷ rest)) first (λ a. a)

abbrev pub pin :
    AddressRuntime → TargetUrl → List (List ℕ) → Result TargetError (TargetUrl × List ℕ)
pin runtime url [] = err unsafe_destination
pin runtime url (a ∷ addresses) =
    throw_if (any (is_private_address runtime) (a ∷ addresses)) unsafe_destination
    >> ok (url, choose runtime a addresses)

-- `resolvePinnedHttpsTarget`; `lookup` finds the addresses of a host.
unfoldable pub resolve_pinned_https_target :
    AddressRuntime
    → (String → List (List ℕ))
    → Option TargetUrl
    → Result TargetError (TargetUrl × List ℕ)
resolve_pinned_https_target runtime lookup none = err bad_url
resolve_pinned_https_target runtime lookup (some url) =
    throw_if (is_unsafe_url url) unsafe_destination >> pin runtime url (lookup url.hostname)
