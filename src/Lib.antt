-- ===== src/Lib.antt =====
-- putv: a player that streams media from sources to sinks, in C.
--
-- A source hands its bytes to a decoder, the decoder its samples to a filter, the filter its PCM bytes
-- to an encoder or a sink. Between two of them stands a jitter, a buffer that one thread fills and
-- another empties. The player's engine chooses the source, from the list that a media keeps.
--
-- Which file is about which part:
-- Prelude: lists, tests and signed integers that all share.
-- Jitter/Ctx: src/jitter.h. Jitter/Sg: src/jitter_sg.c, the scatter-gather jitter. Defs has its
-- state and the calls that do not wait, Wait has `jitter_pull` and `jitter_peer`. The state is the
-- private part of the C structure, with indices for pointers. A call is the part up to its wait on
-- a condition, then one turn of the waiting loop; another thread's calls come between the turns.
-- Valid has the invariant, Queue the abstract view: the buffers that are ready, oldest first.
-- Jitter/Ring: src/jitter_ring.c, the jitter of bytes in a ring, with its memory. Content is the bytes
-- held, oldest first. Jitter/Registry: src/jitter_common.c, the table of the jitters.
-- Media/File: src/media_file.c, the list of urls.
-- Media/Dir: src/media_dir.c, the medias in a tree of directories. Dir is `_find` over the tree as
-- `scandir` gives it: `Entries` are the names of a directory, sorted, with their types, and a directory
-- that cannot be read or is marked is `barred`. The list `ctx->current` is the list of `Dirlist`, deepest
-- first. Dir/Api has the calls of the media; Dir/Medias the list of the medias that the tree has.
-- Player: src/player.c, the engine; Player/Requests what other threads ask of it, Player/Listeners
-- its list of event listeners. What the engine does to sources, media and streams is a
-- log of actions.
-- Filter: src/filter_pcm.c with the sample filters src/filter_mono.c, src/filter_mixed.c,
-- src/filter_rescale.c and src/filter_boost.c. Filter/Output: `filter_filloutput` and the loop in which a
-- decoder calls it, over any jitter (`JitterOps` of Rtp/Demux).
-- Filter/Build: `filter_build`. Filter/Stats: src/filter_stats.c. Heartbeat: src/heartbeat_samples.c, the time that a beat of
-- samples takes, src/heartbeat_bitrate.c and src/heartbeat_pulse.c.
-- Rtp: a stream over the network. Wire is src/rtp.h, the header and the control extension as bytes;
-- Mux and Attach are src/mux_rtp.c (`_mux_run` is `mux_run`, its parts have their own names), Demux and
-- Parse src/demux_rtp.c (`demux_parseheader` is `parseheader`; `handle` is the same on a header that was
-- read). The muxer's input is the list of the buffers that are to come, a decoder's jitter is any that
-- keeps what it promises (`JitterOps`), and listeners are an argument. Relay puts both ends together,
-- Chunks is about buffers that fit into a packet, Full about one that does not.
-- Text: C's string functions, on texts as lists of characters. Url: `utils_parseurl` of
-- src/media_common.c, on a memory with its zeros. Media/Mime: its mime types. Sources: src/src_common.c.
-- Codecs: src/decoder_common.c and src/encoder_common.c. Commands/Line: the reading of a
-- line in src/cmds_line.c. Commands/Methods: its methods, `call`, over the list of urls as the player's media,
-- and the session, `run_lines`; Commands/Import its `import` of a directory. Of the medias that `media_build`
-- tries, `media` takes the list of urls alone.
-- Commands/Keys: src/cmds_input.c, the keys of an input device. Demuxes/Passthrough:
-- src/demux_passthrough.c, whose listeners may add listeners while they are called.
-- Sinks/Settings: `parse_audioparameters` of src/sink_common.c. Sinks/Unix: the threads of src/sink_unix.c, as
-- events that come in any order (`step`).
--
-- Bounds. Unsigned counters wrap as in C (`% 2 ^ 32`). Samples are signed ints of 32 bits: `wrap_int`
-- wraps where a sum of the code may leave the range. The ids of the list of urls are unsigned ints
-- that are returned as ints, and the sink's counter is an int, whose overflow is `none`. Loops are structural: over lists, over the count
-- that bounds them, or over the answers that a callback gives. Five run on fuel that is enough:
-- `output_loop`, with more fuel than samples, `push_parts`, which pushes a payload of n bytes in at most
-- n + 1 parts where a buffer is not empty, `match_protocol` and `parse_settings`, where each turn goes past
-- a character of the text, `demux_run`, with more fuel than there are listeners, those that they add
-- included. `media_next` of a directory calls itself in a loop, and
-- no fuel is enough for it where the tree ends with a file that is no media.
-- An access outside a buffer or through a null pointer is the result `none`.
--
-- Code outside the repository's own is an argument: what callbacks of a jitter answer, what a media
-- and `src_build` answer to the engine, the mime type of a file's name, what `player_mediaid` and
-- `random` answer, the mime functions that the list of urls calls, the float
-- product of the boost filter. Data races on unlocked reads, the bytes inside a buffer
-- of the scatter-gather jitter and the time that a heartbeat waits are not modelled; nor are codecs,
-- devices, sockets, SQL and JSON, which are other libraries'. Numbers that
-- `sscanf` and `atoi` read from an url are arguments.
pub mod Prelude
pub mod Text
pub mod Url
pub mod Codecs
pub mod Commands
pub mod Sinks
pub mod Demuxes
pub mod Sources
pub mod Jitter
pub mod Media
pub mod Player
pub mod Filter
pub mod Heartbeat
pub mod Rtp
