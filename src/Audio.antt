-- ===== src/Audio.antt =====
-- waterbox/audio.cpp and waterbox/audio.h: the streams of the machine's sound, and the sink that
-- sums them. The callback that a stream pulls is the emulator's, and so is the product of a sample
-- and the volume, a floating-point number truncated to an integer: both are parameters.
pub mod Mix
use chimera_core_eka2l.Prelude.{
  ℕ, zero, suc, ◌+◌, ◌-◌, ◌*◌, ◌/◌, ◌%◌, ◌^◌, Bool, true, false, not, ◌&&◌, ◌||◌, Option, none,
  some, List, [], ◌∷◌, ◌++◌, ltb, leb, ◌==◌, if◌then◌else◌, get_or, set, replicate, length,
}

infixl 55 ◌+ℤ◌
-- An integer, by its sign and size: the samples are signed.
pub data ℤ : Type 0 where
  pos : ℕ → ℤ
  negsuc : ℕ → ℤ

abbrev pub less_by : ℕ → ℕ → ℤ
less_by a b = if ltb a b then negsuc (b - a - 1) else pos (a - b)

abbrev pub ◌+ℤ◌ : ℤ → ℤ → ℤ
pos a +ℤ pos b = pos (a + b)
pos a +ℤ negsuc b = less_by a (suc b)
negsuc a +ℤ pos b = less_by b (suc a)
negsuc a +ℤ negsuc b = negsuc (suc (a + b))

-- `std::clamp(_, -32768, 32767)`.
unfoldable pub clamp : ℤ → ℤ
clamp (pos a) = if ltb 32767 a then pos 32767 else pos a
clamp (negsuc a) = if ltb 32767 a then negsuc 32767 else negsuc a

-- A stream. `callback` is none where it is empty; it answers the samples that it wrote, with the
-- count of frames. The position is a `uint64_t`.
pub record Stream {ℓ} (V : Type ℓ) : Type ℓ where
  pub id : ℕ
  pub sample_rate : ℕ
  pub channels : ℕ
  pub callback : Option (ℕ → List ℤ × ℕ)
  pub playing : Bool
  pub volume : V
  pub position : ℕ

module _ {ℓ} {V : Type ℓ} where
  unfoldable pub audio_stream : V → ℕ → ℕ → ℕ → Option (ℕ → List ℤ × ℕ) → Stream V
  audio_stream full id sample_rate channels callback = record {
    id = id;
    sample_rate = sample_rate;
    channels = channels;
    callback = callback;
    playing = false;
    volume = full;
    position = 0;
  }

  unfoldable pub start : Stream V → Stream V
  start s = record s { playing = true }

  unfoldable pub stop : Stream V → Stream V
  stop s = record s { playing = false }

  unfoldable pub pause : Stream V → Stream V
  pause s = record s { playing = false }

  unfoldable pub is_playing : Stream V → Bool
  is_playing s = s.playing

  unfoldable pub is_pausing : Stream V → Bool
  is_pausing s = not s.playing

  unfoldable pub set_volume : Stream V → V → Stream V
  set_volume s volume = record s { volume = volume }

  unfoldable pub get_volume : Stream V → V
  get_volume s = s.volume

  unfoldable pub current_frame_position : Stream V → ℕ
  current_frame_position s = s.position

  -- `audio_sink`: the streams in the order in which they came.
  unfoldable pub add : List (Stream V) → Stream V → List (Stream V)
  add streams s = streams ++ s ∷ []

  unfoldable pub remove : List (Stream V) → ℕ → List (Stream V)
  remove [] id = []
  remove (s ∷ streams) id = if s.id == id then remove streams id else s ∷ remove streams id

-- How many frames of the stream `frames` of the sink are worth.
unfoldable pub wanted : ℕ → ℕ → ℕ → ℕ
wanted frames sample_rate out_rate =
    if out_rate == 0 then frames else (frames * sample_rate + out_rate - 1) % 2 ^ 64 / out_rate

-- The stream's frame that is held at the sink's frame `i`.
unfoldable pub source : ℕ → ℕ → ℕ → ℕ
source want frames i = if want == frames then i else i * want / frames

module _ {ℓ} {V : Type ℓ} (scaled : ℤ → V → ℤ) where
  -- One sample of the output, with the stream's added.
  abbrev pub mixed : V → ℤ → ℤ → ℤ
  mixed volume out sample = clamp (out +ℤ scaled sample volume)

  -- The frame `i` of the output: the loop's body.
  unfoldable pub mix_frame : V → ℕ → List ℤ → ℕ → ℕ → List ℤ → List ℤ
  mix_frame volume channels scratch from i out =
      let left = get_or scratch (from * channels) (pos 0) in
      let right = if ltb 1 channels then get_or scratch (from * channels + 1) (pos 0) else left in
      let one = set out (i * 2) (mixed volume (get_or out (i * 2) (pos 0)) left) in
      set one (i * 2 + 1) (mixed volume (get_or out (i * 2 + 1) (pos 0)) right)

  -- The loop, `n` frames from frame `i` on; it breaks where the stream's frames end.
  unfoldable pub mix_from : V → ℕ → List ℤ → ℕ → ℕ → ℕ → ℕ → ℕ → List ℤ → List ℤ
  mix_from volume channels scratch got want frames i zero out = out
  mix_from volume channels scratch got want frames i (suc n) out =
      let from = source want frames i in
      let rest =
        mix_from volume channels scratch got want frames (suc i) n
          (mix_frame volume channels scratch from i out) in
      if leb got from then out else rest

  -- `scratch` is zeros beyond what the callback wrote.
  unfoldable pub mix_into : ℕ → ℕ → Stream V → List ℤ → Stream V × List ℤ
  mix_into frames out_rate s out = elim s.callback [
    | none ↦ (s, out)
    | some callback ↦
        let want = wanted frames s.sample_rate out_rate in
        let r = callback want in
        if not s.playing then (s, out) else if r.1 == 0 then (s, out) else (
          record s { position = (s.position + r.1) % 2 ^ 64 },
          mix_from s.volume s.channels r.0 r.1 want frames 0 frames out,
        )
  ]

  abbrev pub mix_all : ℕ → ℕ → List (Stream V) → List ℤ → List (Stream V) × List ℤ
  mix_all frames rate [] out = ([], out)
  mix_all frames rate (s ∷ streams) out =
      let r = mix_into frames rate s out in
      let rest = mix_all frames rate streams r.1 in (r.0 ∷ rest.0, rest.1)

  unfoldable pub render : ℕ → ℕ → List (Stream V) → List (Stream V) × List ℤ
  render rate frames streams = mix_all frames rate streams (replicate (frames * 2) (pos 0))
