-- ===== src/Webhooks/Tests.antt =====
-- Runs of ops/webhook-destination.mjs.
use planeo.Prelude.{
  ℕ, String, true, false, none, some, List, [], ◌∷◌, any, ok, err, length, codes, ◌==◌, ◌===◌,
  is_space, same_units, if◌then◌else◌, ◌≡◌, refl,
}
use planeo.Identity.Passwords.{split_units}
use planeo.Webhooks.{
  AddressRuntime, TargetUrl, octet_of, ipv4, is_private_number, is_private_plain, is_private_text,
  is_private_address, unsafe_destination, resolve_pinned_https_target,
}
use planeo.Webhooks.Targets.{IsPinned, resolve_pinned_https_target-IsPinned}

-- A text with a colon is taken for IPv6, and any other for IPv4.
abbrev runtime : AddressRuntime
runtime = record {
  is_ip = λ text. if any (λ c. c == b':') text then 6 else 4;
  to_octet = λ text. if length text == 0 then some 0 else octet_of text;
  lower_case = λ text. text;
}

abbrev hooks : TargetUrl
hooks = record {
  protocol = "https:";
  username = "";
  password = "";
  port = "443";
  hostname = "hooks.example.org";
}

abbrev lookup : String → List (List ℕ)
lookup name =
    if name === "hooks.example.org"
    then codes "2606:4700::1111" ∷ codes "93.184.216.34" ∷ []
    else codes "93.184.216.34" ∷ codes "10.1.2.3" ∷ []

reads_octets : ipv4 (codes "10.1.2.3") ≡ some 167838211
unfolding ipv4 split_units
reads_octets = refl

refuses_octets : ipv4 (codes "10.1.2.256") ≡ none
unfolding ipv4 split_units
refuses_octets = refl

private_ten : is_private_address runtime (codes " 10.1.2.3 ") ≡ true
unfolding is_private_address is_private_text is_private_plain is_private_number is_space same_units
    ipv4 split_units
private_ten = refl

private_mapped : is_private_address runtime (codes "::ffff:127.0.0.1") ≡ true
unfolding is_private_address is_private_text is_private_plain is_private_number is_space same_units
    ipv4 split_units
private_mapped = refl

private_loopback : is_private_address runtime (codes "::1") ≡ true
unfolding is_private_address is_private_text is_private_plain is_private_number is_space same_units
    ipv4 split_units
private_loopback = refl

unspecified_passes : is_private_address runtime (codes "::") ≡ false
unfolding is_private_address is_private_text is_private_plain is_private_number is_space same_units
    ipv4 split_units
unspecified_passes = refl

link_local_passes : is_private_address runtime (codes "fe90::1") ≡ false
unfolding is_private_address is_private_text is_private_plain is_private_number is_space same_units
    ipv4 split_units
link_local_passes = refl

one_private_refuses :
    resolve_pinned_https_target runtime lookup (some (record hooks { hostname = "other" }))
    ≡ err unsafe_destination
unfolding resolve_pinned_https_target is_private_address is_private_text is_private_plain
    is_private_number is_space same_units ipv4 split_units
one_private_refuses = refl

pins_ipv4 :
    resolve_pinned_https_target runtime lookup (some hooks) ≡ ok (hooks, codes "93.184.216.34")
unfolding resolve_pinned_https_target is_private_address is_private_text is_private_plain
    is_private_number is_space same_units ipv4 split_units
pins_ipv4 = refl

resolve_pinned_https_target-IsPinned_example :
    (hooks ≡ hooks)
    × IsPinned runtime
        (codes "2606:4700::1111" ∷ codes "93.184.216.34" ∷ [])
        hooks
        (codes "93.184.216.34")
resolve_pinned_https_target-IsPinned_example =
    resolve_pinned_https_target-IsPinned runtime lookup hooks hooks (codes "93.184.216.34")
      pins_ipv4
