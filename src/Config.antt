-- ===== src/Config.antt =====
-- config/config.go: the names of the OS families and of the releases.
use goval_dictionary_v.Text.{Text, codes}

abbrev pub redhat : Text
redhat = codes "redhat"

abbrev pub centos : Text
centos = codes "centos"

abbrev pub debian : Text
debian = codes "debian"

abbrev pub ubuntu : Text
ubuntu = codes "ubuntu"

abbrev pub raspbian : Text
raspbian = codes "raspbian"

abbrev pub opensuse : Text
opensuse = codes "opensuse"

abbrev pub opensuse_leap : Text
opensuse_leap = codes "opensuse.leap"

abbrev pub suse_enterprise_server : Text
suse_enterprise_server = codes "suse.linux.enterprise.server"

abbrev pub suse_enterprise_desktop : Text
suse_enterprise_desktop = codes "suse.linux.enterprise.desktop"

abbrev pub oracle : Text
oracle = codes "oracle"

abbrev pub alpine : Text
alpine = codes "alpine"

abbrev pub amazon : Text
amazon = codes "amazon"

abbrev pub fedora : Text
fedora = codes "fedora"

abbrev pub ubuntu1404 : Text
ubuntu1404 = codes "trusty"

abbrev pub ubuntu1604 : Text
ubuntu1604 = codes "xenial"

abbrev pub ubuntu1804 : Text
ubuntu1804 = codes "bionic"

abbrev pub ubuntu2004 : Text
ubuntu2004 = codes "focal"

abbrev pub ubuntu2104 : Text
ubuntu2104 = codes "hirsute"

abbrev pub ubuntu2110 : Text
ubuntu2110 = codes "impish"

abbrev pub ubuntu2204 : Text
ubuntu2204 = codes "jammy"

abbrev pub ubuntu2210 : Text
ubuntu2210 = codes "kinetic"

abbrev pub ubuntu2304 : Text
ubuntu2304 = codes "lunar"

abbrev pub debian7 : Text
debian7 = codes "wheezy"

abbrev pub debian8 : Text
debian8 = codes "jessie"

abbrev pub debian9 : Text
debian9 = codes "stretch"

abbrev pub debian10 : Text
debian10 = codes "buster"

abbrev pub debian11 : Text
debian11 = codes "bullseye"

abbrev pub debian12 : Text
debian12 = codes "bookworm"
