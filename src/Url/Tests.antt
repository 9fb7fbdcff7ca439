-- ===== src/Url/Tests.antt =====
-- src/media_common.c, `utils_parseurl`: the address that the demuxer offers to the media list, and others.
use putv.Prelude.{◌≡◌, refl, none, some}
use putv.Text.{strncmp}
use putv.Media.Mime.{codes}
use putv.Url.{index, c_text, port_place, move_path, give_parts, parse_host, utils_parseurl}
use putv.Url.RoundTrip.{with_search, parseurl-with_search}

parseurl-with_search_example :
    utils_parseurl
      (with_search (codes "rtp") (codes "239.255.0.1") (codes "5004") (codes "ssrc=0xa&pt=14"))
    ≡ record {
      protocol = some (codes "rtp");
      host = some (codes "239.255.0.1");
      port = some (codes "5004");
      path = none;
      search = some (codes "ssrc=0xa&pt=14");
    }
unfolding strncmp
parseurl-with_search_example =
    parseurl-with_search (codes "rtp") (codes "239.255.0.1") (codes "5004") (codes "ssrc=0xa&pt=14")
      refl refl refl refl refl

with_path : utils_parseurl (codes "http://radio:80/live/1?x=2") ≡ record {
  protocol = some (codes "http");
  host = some (codes "radio");
  port = some (codes "80");
  path = some (codes "/live/1");
  search = some (codes "x=2");
}
unfolding utils_parseurl parse_host index c_text port_place move_path give_parts strncmp
with_path = refl

-- The colon of a file's name ends it.
file_with_colon : utils_parseurl (codes "file://a:b/c") ≡ record {
  protocol = some (codes "file");
  host = some (codes "");
  port = some (codes "");
  path = some (codes "a");
  search = none;
}
unfolding utils_parseurl parse_host index c_text port_place move_path give_parts strncmp
file_with_colon = refl
