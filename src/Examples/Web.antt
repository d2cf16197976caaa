-- ===== src/Examples/Web.antt =====
-- Concrete inputs for the theorems on src/serving/remote_images.rs.
use muna_server.Base.{
  ℕ, ◌≤◌, ◌≡◌, refl, inl, true, false, not, none, some, List, [], ◌∷◌, map, Text, codes, length,
  All, ok, err, map_err, text_eq, if◌then◌else◌, arith,
}
use muna_server.Images.{Ipv4Addr, v4, is_public_ipv4, is_public_ip}
use muna_server.Images.Blocks.{
  number, any_block, reserved_blocks, AreOctets, mapped, compatible, translated,
  is_public_ipv4-blocks, is_public_ip-embed,
}
use muna_server.Images.Fetch.{
  Response, Web, new_fetcher, max_redirects, fetch, fetch_failure, fetch_all, read_response,
  literal_of, resolver,
}
use muna_server.Images.Fetch.Reach.{IsPublic, fetch-IsPublic}
use muna_server.Images.Fetch.Collect.{
  IsDelivered, Taken, read_response-IsDelivered, fetch_all-Taken,
}
use muna_server.Images.Inline.{
  ChatMessage, part_content, image_url, other_part, BlockMessage, block_content, image_block,
  url_source, openai, anthropic, inline_openai, inline_anthropic,
}
use muna_server.Images.Inline.Laws.{IsInlined, inline_openai-IsInlined}

-- A private address, 172.16.5.9, and a public one.
abbrev private : Ipv4Addr
private = record { a = 172; b = 16; c = 5; d = 9 }

abbrev public : Ipv4Addr
public = record { a = 93; b = 184; c = 216; d = 34 }

private-AreOctets : AreOctets private
private-AreOctets = (omega arith, omega arith, omega arith, omega arith)

is_public_ipv4-blocks_example :
    is_public_ipv4 private ≡ not (any_block reserved_blocks (number 172 16 5 9))
is_public_ipv4-blocks_example = is_public_ipv4-blocks private private-AreOctets

is_public_ip-embed_example :
    (is_public_ip (mapped private) ≡ is_public_ipv4 private)
    × (is_public_ip (compatible private) ≡ false)
    × (is_public_ip (translated private) ≡ false)
is_public_ip-embed_example = is_public_ip-embed private private-AreOctets

-- A name server that gives a private address beside the public one, and a server of small images.
abbrev image_response : Response
image_response = record {
  is_success = true;
  status = codes "200 OK";
  content_type = some (codes "Image/PNG; q=1");
  content_length = none;
  chunks = ok (1 ∷ 2 ∷ []) ∷ ok (3 ∷ []) ∷ [];
}

abbrev pub web : Web Text
web = record {
  parse_url = λ t. if text_eq t (codes "bad") then err (codes "empty host") else ok t;
  scheme = λ u. codes "https";
  host_str = λ u. some u;
  parse_ip = λ t. none;
  show_ip = λ ip. codes "172.16.5.9";
  lookup_host = λ t. ok (v4 private ∷ v4 public ∷ []);
  send = λ u. record { log = (u, v4 public) ∷ []; outcome = ok image_response };
}

abbrev pub encode : Text → Text
encode bytes = map (λ b. b) bytes

fetch-IsPublic_example :
    (length (fetch web new_fetcher (codes "a.example/cat.png")).0 ≤ max_redirects)
    × All (IsPublic web) (fetch web new_fetcher (codes "a.example/cat.png")).0
unfolding new_fetcher literal_of resolver is_public_ip
fetch-IsPublic_example =
    fetch-IsPublic web new_fetcher (codes "a.example/cat.png") refl λ url. (refl, inl refl)

read_response-IsDelivered_example :
    IsDelivered new_fetcher image_response (read_response new_fetcher image_response)
read_response-IsDelivered_example = read_response-IsDelivered new_fetcher image_response

abbrev urls : List Text
urls = codes "a.example/cat.png" ∷ codes "bad" ∷ []

fetch_all-Taken_example :
    Taken 0
      (map (λ url. map_err (fetch_failure url) (fetch web new_fetcher url).1) urls)
      (fetch_all web new_fetcher urls)
fetch_all-Taken_example = fetch_all-Taken web new_fetcher urls

abbrev pub chat : List (ChatMessage ℕ)
chat =
    record {
      content = some (part_content (other_part 7 ∷ image_url (codes "a.example/cat.png") 8 ∷ []));
      rest = 0;
    }
    ∷ []

abbrev pub blocks : List (BlockMessage ℕ)
blocks =
    record { content = block_content (image_block (url_source (codes "bad")) 8 ∷ []); rest = 0 }
    ∷ []

inline_openai-IsInlined_example :
    IsInlined (openai encode) web new_fetcher chat (inline_openai web encode new_fetcher chat)
    × IsInlined
        (anthropic encode)
        web
        new_fetcher
        blocks
        (inline_anthropic web encode new_fetcher blocks)
inline_openai-IsInlined_example = inline_openai-IsInlined web encode new_fetcher chat blocks
