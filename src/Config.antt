-- ===== src/Config.antt =====
-- internal/config/containers.go: the `[[containers]]` blocks of the config file.
pub mod ExposePorts
pub mod Emulators
pub mod Volumes
pub mod Containers
