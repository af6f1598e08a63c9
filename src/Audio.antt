-- ===== src/Audio.antt =====
-- internal/audio: codecs, buffers and files of audio.
pub mod G711
pub mod Codec
pub mod Packetizer
pub mod Jitter
pub mod Wav
pub mod Recorder
pub mod Ogg
pub mod Pool
