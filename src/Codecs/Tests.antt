-- ===== src/Codecs/Tests.antt =====
-- src/encoder_common.c: the choice of an encoder for a path with a query.
use putv.Prelude.{◌≡◌, refl}
use putv.Text.{strchr, strrchr, strncmp}
use putv.Media.Mime.{codes}
use putv.Codecs.{encoder_default, compared, encoder_check}

-- The extension of a path with a query is compared over the length of the whole path before the query.
query_hides_extension : encoder_check (codes "song.mp3?x") ≡ encoder_default
unfolding encoder_check compared strchr strrchr strncmp
query_hides_extension = refl
