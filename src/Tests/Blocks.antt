-- ===== src/Tests/Blocks.antt =====
-- A block of the config file.
use lstk.Config.Containers.Valid.{validate-IsValid, IsValid}
use lstk.Config.Emulators.{product_of}
use lstk.Prelude.{refl, ◌≡◌, ok, [], ◌∷◌, some, nat_eq}
use lstk.Text.Basic.{text_beq, Text, codes, text_eq}
use lstk.Config.Containers.{ContainerConfig}
use lstk.Config.Containers

abbrev pub block : ContainerConfig
block = record {
  type = codes "aws";
  tag = codes "2026.3.0";
  port = codes "4566";
  custom_image = [];
  custom_name = [];
  volume = [];
  volumes = [];
  expose_ports = codes "5353:53/udp" ∷ [];
  env = [];
}

block_valid :
    Containers.validate
      (some (codes "/home/u"))
      (some (codes "/home/u/.cache"))
      (codes "/home/u/.lstk")
      block
    ≡ ok tt
unfolding Containers.validate Containers.validate_tag text_beq lstk.Text.Basic.byte_len
    lstk.Text.Decimal.atoi lstk.Config.ExposePorts.exposed_ports
    lstk.Config.ExposePorts.expose_entries lstk.Config.ExposePorts.parse_expose_port
    lstk.Text.Search.trim_space lstk.Config.ExposePorts.parse_spec
    lstk.Config.ExposePorts.port_and_protocols lstk.Text.Search.cut
    lstk.Config.ExposePorts.protocols_of lstk.Text.Basic.to_lower
    lstk.Config.ExposePorts.parse_port_number lstk.Config.ExposePorts.expose_all
    lstk.Config.ExposePorts.expose Containers.valid_tag Containers.validate_volumes
    lstk.Config.Volumes.check_persistence lstk.Config.Volumes.parsed_volumes lstk.Ports.lookup
    lstk.Text.Decimal.itoa
block_valid = refl

block_image : Containers.image block ≡ ok (codes "localstack/localstack-pro:2026.3.0")
unfolding Containers.image Containers.product_name text_beq product_of
block_image = refl

validate-IsValid_example :
    IsValid (some (codes "/home/u")) (some (codes "/home/u/.cache")) (codes "/home/u/.lstk") block
validate-IsValid_example =
    validate-IsValid (some (codes "/home/u")) (some (codes "/home/u/.cache"))
      (codes "/home/u/.lstk") block block_valid
