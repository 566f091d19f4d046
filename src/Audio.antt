-- ===== src/Audio.antt =====
-- client_cli/src/audio: the samples between the network and the sound card.
pub mod JitterBuffer
pub mod Ring
pub mod Queue
pub mod Wav
pub mod WavFile
pub mod WavEnd
pub mod Capture
pub mod Recording
pub mod Playback
pub mod Listening
