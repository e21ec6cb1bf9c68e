-- ===== src/Tests.antt =====
-- Runs of the definitions on concrete inputs.
mod Format
mod Sample
mod Fields
mod Frames
mod Logging
mod Serving
mod Program
mod Crowd
mod Locking
mod Running
mod Launching
