-- ===== src/Rtp/Demux.antt =====
-- src/demux_rtp.c: the packets that the demuxer receives, without DEMUX_RTP_REORDER and DEMUX_DUMP.
use putv.Prelude.{
  ℕ, suc, ◌+◌, ◌-◌, ◌*◌, ◌%◌, ◌^◌, ◌≡◌, Bool, false, not, ◌||◌, ◌&&◌, Option, none, some, List, [],
  ◌∷◌, ◌++◌, ltb, leb, ◌==◌, if◌then◌else◌, take, drop, length, get_elem?,
}
use putv.Media.Mime.{Mime, octetstream, audiomp3, audiopcm, audioflac}
use putv.Rtp.Wire.{get_le, bswap_32, RtpHeader, header_size, Putvctrl, read_putvctrl}

-- `demux_out_t`, with the jitter of its decoder once it has one. `pulled` is whether `data` is set.
pub record Out (J : Type 0) : Type 0 where
  pub estream : Option ℕ
  pub ssrc : ℕ
  pub ssrc2 : ℕ
  pub jitter : Option J
  pub pulled : Bool
  pub mime : Mime
  pub cc : ℕ
  pub pt : ℕ

-- `demux_profile_t`, of the list of profiles.
pub record Profile : Type 0 where
  pub pt : ℕ
  pub mime : Mime

-- What the demuxer asks of the player: a song of the media list, by its source and type, or a volume.
pub data Request : Type 0 where
  insert_media : (ssrc pt : ℕ) → Mime → Request
  set_volume : ℕ → Request

-- `demux_ctx_t`. `sessionlist` is the sources that were met and are not played; `has_media` is whether
-- the player has a media list that can insert.
pub record Demux (J : Type 0) : Type 0 where
  pub outs : List (Out J)
  pub jitte : ℕ
  pub seqnum : ℕ
  pub seqorig : ℕ
  pub missing : ℕ
  pub lasttimestamp : ℕ
  pub mime : Mime
  pub sessionid : ℕ
  pub sessionid2 : ℕ
  pub listeners : List ℕ
  pub profiles : List Profile
  pub sessionlist : List ℕ
  pub has_media : Bool
  pub requests : List Request

-- What the demuxer calls of a decoder's jitter, and what that promises: `content` is what went through
-- it.
pub record JitterOps (J : Type 0) : Type 0 where
  pub size : J → ℕ
  pub pull : J → Option J
  pub push : List ℕ → Option ℕ → J → J
  pub content : J → List ℕ
  pub size-pull : (j k : J) → pull j ≡ some k → size k ≡ size j
  pub size-push : (bytes : List ℕ) (beat : Option ℕ) (j : J) → size (push bytes beat j) ≡ size j
  pub content-pull : (j k : J) → pull j ≡ some k → content k ≡ content j
  pub content-push :
      (bytes : List ℕ) (beat : Option ℕ) (j : J) → content (push bytes beat j) ≡ content j ++ bytes

-- `demux_profile`
pub demux_profile : List Profile → ℕ → Mime
demux_profile [] pt = octetstream
demux_profile (profile ∷ profiles) pt =
    if profile.pt == pt then profile.mime else demux_profile profiles pt

-- `a - b` of two `size_t`
abbrev pub sub_size : ℕ → ℕ → ℕ
sub_size a b = (a + 2 ^ 64 - b % 2 ^ 64) % 2 ^ 64

-- `demux_parseheader`, what it skips: where the payload starts and how long it is, and where the
-- extension's header is.
pub record Located : Type 0 where
  pub start : ℕ
  pub len : ℕ
  pub extheader : Option ℕ

unfoldable pub locate : List ℕ → ℕ → RtpHeader → Located
locate input len header =
    let start = header_size + 4 * header.cc in
    let left = sub_size (sub_size len header_size) (4 * header.cc) in
    if header.x == 0 then record { start = start; len = left; extheader = none } else record {
      start = start + 4 + get_le 2 (drop (start + 2) input);
      len = sub_size (sub_size left 4) (get_le 2 (drop (start + 2) input));
      extheader = some start;
    }

-- The payload. `none` where the code reads past the end of its buffer.
abbrev pub payload : List ℕ → Located → Option (List ℕ)
payload input at =
    if leb (at.start + at.len) (length input)
    then some (take at.len (drop at.start input))
    else none

abbrev pub member : ℕ → List ℕ → Bool
member ssrc [] = false
member ssrc (known ∷ list) = known == ssrc || member ssrc list

module _ {J : Type 0} where
  -- `_demux_getout`, the substream that a packet belongs to, by its place.
  unfoldable pub find_out : ℕ → ℕ → List (Out J) → Option ℕ
  find_out ssrc pt [] = none
  find_out ssrc pt (out ∷ outs) =
      let rest = find_out ssrc pt outs in
      if out.ssrc == ssrc || out.ssrc2 == ssrc || out.pt == pt
      then some 0
      else elim rest [ none ↦ none | some i ↦ some (suc i) ]

  -- A substream after its payload was pushed.
  abbrev pub fed : Out J → J → Out J
  fed out j = record out { jitter = some j; pulled = false }

  -- `demux_rtp_addprofile`
  pub addprofile : ℕ → Mime → Demux J → Demux J
  addprofile pt mime ctx = record ctx { profiles = record { pt = pt; mime = mime } ∷ ctx.profiles }

  -- `demux_init` of an url whose `mime=`, `pt=` and `ssrc=` are given.
  pub demux_init : Bool → Mime → Mime → ℕ → ℕ → Demux J
  unfolding addprofile
  demux_init has_media ctx_mime mime pt ssrc = addprofile pt mime (
      addprofile 46 audioflac (
        addprofile 11 audiopcm (
          addprofile 14 audiomp3 (record {
            outs = [];
            jitte = 0;
            seqnum = 0;
            seqorig = 0;
            missing = 0;
            lasttimestamp = 0;
            mime = ctx_mime;
            sessionid = ssrc;
            sessionid2 = 0;
            listeners = [];
            profiles = [];
            sessionlist = [];
            has_media = has_media;
            requests = [];
          }))))

  -- `_demux_player_cb`, on a change to STATE_STOP.
  unfoldable pub stopped : Demux J → Demux J
  stopped ctx = record ctx { sessionid = 0 }

  -- `demux_parseheader`: another session's packet, and one that its copy came before.
  unfoldable pub is_other : ℕ → Demux J → Bool
  is_other ssrc ctx =
      not (ctx.sessionid == 0) && not (ctx.sessionid == ssrc) && not (ctx.sessionid2 == ssrc)

  unfoldable pub is_copy : ℕ → ℕ → Demux J → Bool
  is_copy ssrc seqnum ctx = ctx.sessionid2 == ssrc && leb seqnum ctx.seqnum

  -- `demux_parseheader`, a packet of another session: its source is offered to the media list once.
  unfoldable pub other_session : ℕ → ℕ → Demux J → Demux J
  unfolding demux_profile
  other_session ssrc pt ctx = if member ssrc ctx.sessionlist then ctx else record ctx {
    sessionlist = ssrc ∷ ctx.sessionlist;
    requests =
        if ctx.has_media
        then insert_media ssrc pt (demux_profile ctx.profiles pt) ∷ ctx.requests
        else ctx.requests;
  }

  -- `demux_parseheader`, a control packet: its command, and where it is read.
  unfoldable pub obey : Putvctrl → Demux J → Demux J
  obey cmd ctx =
      let halted = if cmd.cmd_id == 1 && cmd.cmd_data == 1 then stopped ctx else ctx in
      if cmd.cmd_id == 2
      then record halted { requests = set_volume (cmd.cmd_data % 100) ∷ halted.requests }
      else halted

  unfoldable pub control : List ℕ → ℕ → Demux J → Demux J
  control input extheader ctx = obey (read_putvctrl (drop (extheader + 4) input)) ctx

  -- The listeners' callbacks, in the list's order, each on both events.
  pub announce : (ℕ → Demux J → Demux J) → List ℕ → Demux J → Demux J
  announce notify [] ctx = ctx
  announce notify (l ∷ ls) ctx = announce notify ls (notify l ctx)

  -- `_demux_getout`: the substream's place, none where the packet's type is not known.
  unfoldable pub getout : (ℕ → Demux J → Demux J) → ℕ → RtpHeader → Demux J → Option ℕ × Demux J
  getout notify ssrc header ctx = elim (find_out ssrc header.pt ctx.outs) [
    | some i ↦ (some i, ctx)
    | none ↦
        let even = ssrc - ssrc % 2 in
        let odd = even + 1 in
        let mime = demux_profile ctx.profiles header.pt in
        let named = record ctx { sessionid = even; sessionid2 = odd } in
        let out : Out J = record {
          estream = none;
          ssrc = bswap_32 even;
          ssrc2 = bswap_32 odd;
          jitter = none;
          pulled = false;
          mime = mime;
          cc = header.cc;
          pt = header.pt;
        } in
        elim mime [
          | octetstream ↦ (none, named)
          | _ ↦ (some 0, announce notify ctx.listeners (record named { outs = out ∷ ctx.outs }))
        ]
  ]

  -- `demux_parseheader`, the sequence number of a packet that is played.
  unfoldable pub count_missing : ℕ → Demux J → Demux J
  count_missing seqnum ctx =
      let before = (seqnum + 2 ^ 16 - 1) % 2 ^ 16 in
      let ctx' =
        if ctx.seqnum == 0 then record ctx { seqorig = before; seqnum = before } else ctx in
      let expected = (ctx'.seqnum + 1) % 2 ^ 16 in
      let missing = (seqnum + 2 ^ 16 - expected) % 2 ^ 16 in
      if ltb 0 missing
      then record ctx' { missing = (ctx'.missing + missing) % 2 ^ 64; seqnum = seqnum }
      else record ctx' { seqnum = expected }

module _ {J : Type 0} where
  -- `demux_mime`; past the last substream it is the type of the source.
  pub demux_mime : ℕ → Demux J → Mime
  demux_mime index ctx = elim (get_elem? ctx.outs index) [ none ↦ ctx.mime | some out ↦ out.mime ]

  -- `demux_eventlistener`
  pub eventlistener : ℕ → Demux J → Demux J
  eventlistener l ctx = record ctx { listeners = ctx.listeners ++ l ∷ [] }

  -- `demux_attach`, of a decoder and the jitter that it has.
  pub attach_out : ℕ → ℕ → J → List (Out J) → List (Out J)
  attach_out index decoder jitter [] = []
  attach_out index decoder jitter (out ∷ outs) =
      let rest = attach_out index decoder jitter outs in
      if out.ssrc == index
      then record out { estream = some decoder; jitter = some jitter } ∷ outs
      else out ∷ rest

  pub attach : ℕ → ℕ → J → Demux J → Demux J
  unfolding attach_out
  attach index decoder jitter ctx = record ctx {
    outs = attach_out (index % 2 ^ 32) decoder jitter ctx.outs;
  }

  -- `demux_estream`
  pub estream_of : ℕ → List (Out J) → Option ℕ
  estream_of index [] = none
  estream_of index (out ∷ outs) =
      let rest = estream_of index outs in if index == out.ssrc then out.estream else rest
