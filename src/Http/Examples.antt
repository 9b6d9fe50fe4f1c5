-- ===== src/Http/Examples.antt =====
-- crates/http: tests, and the theorems at a concrete network.
use kit.Prelude.{
  ◌+◌, ◌≤◌, false, none, some, String, [], ◌∷◌, ◌≡◌, inl, refl, str_eq, if◌then◌else◌, ok, err,
  length,
}
use kit.Http.Address.{Ipv4Addr, v4, is_public_unicast, is_public_unicast_v4, is_special_v4}
use kit.Http.Fetch.{
  SocketAddr, SafeFetchOpts, SafeResponse, Response, Network, blocked_address, safe_get_inner,
  safe_post_form_inner, safe_get, get_loop, hop_once, pin, resolve_and_validate, validate,
  first_blocked, next_of, is_redirection, read_capped, read_chunks, within,
}
use kit.Http.Fetch.Guard.{AllPublic, connects_public}
use kit.Http.Fetch.Cap.{fetch_capped}

abbrev metadata : Ipv4Addr
metadata = record { o0 = 169; o1 = 254; o2 = 169; o3 = 254 }

abbrev public_addr : SocketAddr
public_addr = record { ip = v4 (record { o0 = 93; o1 = 184; o2 = 215; o3 = 14 }); port = 443 }

abbrev page : String → Response
page url =
    if str_eq url "moved.example"
    then record { status = 302; url = url; location = some "metadata"; chunks = [] }
    else record {
      status = 200;
      url = url;
      location = none;
      chunks = ok (72 ∷ []) ∷ ok (105 ∷ []) ∷ [];
    }

-- URLs are host names; one of them is the text of an address.
abbrev net : Network
net = record {
  Url = String;
  parse = λ s. ok s;
  scheme = λ u. "https";
  host_str = λ u. some u;
  port_or_known_default = λ u. some 443;
  join = λ u loc. ok loc;
  to_string = λ u. u;
  parse_ip = λ h. if str_eq h "metadata" then some (v4 metadata) else none;
  lookup_host = λ hop h port. ok (public_addr ∷ []);
  send = λ hop a u. ok (page u);
}

abbrev opts : SafeFetchOpts
opts = record { max_body_bytes = 2; max_redirects = 5 }

redirect_test :
    safe_get_inner net "moved.example" opts
    ≡ record { result = err (blocked_address (v4 metadata)); connected = public_addr ∷ [] }
unfolding safe_get_inner get_loop hop_once pin resolve_and_validate validate first_blocked
    is_public_unicast is_public_unicast_v4 is_special_v4 next_of is_redirection
redirect_test = refl

abbrev greeting : SafeResponse
greeting = record { status = 200; body = 72 ∷ 105 ∷ []; final_url = "example.org" }

greeting_test : safe_get net false "example.org" opts ≡ ok greeting
unfolding safe_get within safe_get_inner get_loop hop_once pin resolve_and_validate validate
    first_blocked is_public_unicast is_public_unicast_v4 is_special_v4 next_of is_redirection
    read_capped read_chunks
greeting_test = refl

connects_public_example :
    (AllPublic (safe_get_inner net "moved.example" opts).connected
      × (length (safe_get_inner net "moved.example" opts).connected ≤ opts.max_redirects + 1))
    × (AllPublic (safe_post_form_inner net "moved.example" opts).connected
        × (length (safe_post_form_inner net "moved.example" opts).connected ≤ 1))
connects_public_example = connects_public net "moved.example" opts

fetch_capped_example : length greeting.body ≤ opts.max_body_bytes
fetch_capped_example = fetch_capped net false "example.org" opts greeting (inl greeting_test)
