-- ===== src/Stdlib/Prefixes.antt =====
-- The list `stdlibPrefixes` of java/gazelle/private/java/java.go.
use rules_jvm.Prelude.{List, [], ◌∷◌, codes, String}
use rules_jvm.Names.{PackageName, new_package_name}

abbrev pub java_package : String → PackageName
java_package s = new_package_name (codes s)

abbrev pub stdlib_prefixes : List PackageName
stdlib_prefixes =
    java_package "com.sun.accessibility.internal.resources"
    ∷ java_package "com.sun.beans"
    ∷ java_package "com.sun.crypto.provider"
    ∷ java_package "com.sun.imageio.plugins.bmp"
    ∷ java_package "com.sun.imageio.plugins.common"
    ∷ java_package "com.sun.imageio.plugins.gif"
    ∷ java_package "com.sun.imageio.plugins.jpeg"
    ∷ java_package "com.sun.imageio.plugins.png"
    ∷ java_package "com.sun.imageio.plugins.tiff"
    ∷ java_package "com.sun.imageio.plugins.wbmp"
    ∷ java_package "com.sun.imageio.spi"
    ∷ java_package "com.sun.imageio.stream"
    ∷ java_package "com.sun.jarsigner"
    ∷ java_package "com.sun.java.accessibility.util"
    ∷ java_package "com.sun.java.swing"
    ∷ java_package "com.sun.java_cup.internal.runtime"
    ∷ java_package "com.sun.jdi"
    ∷ java_package "com.sun.jmx.defaults"
    ∷ java_package "com.sun.jmx.interceptor"
    ∷ java_package "com.sun.jmx.mbeanserver"
    ∷ java_package "com.sun.jmx.remote.internal"
    ∷ java_package "com.sun.jmx.remote.protocol.rmi"
    ∷ java_package "com.sun.jmx.remote.security"
    ∷ java_package "com.sun.jmx.remote.util"
    ∷ java_package "com.sun.jndi.dns"
    ∷ java_package "com.sun.jndi.ldap"
    ∷ java_package "com.sun.jndi.rmi.registry"
    ∷ java_package "com.sun.jndi.toolkit.ctx"
    ∷ java_package "com.sun.jndi.toolkit.dir"
    ∷ java_package "com.sun.jndi.toolkit.url"
    ∷ java_package "com.sun.jndi.url.dns"
    ∷ java_package "com.sun.jndi.url.ldap"
    ∷ java_package "com.sun.jndi.url.ldaps"
    ∷ java_package "com.sun.jndi.url.rmi"
    ∷ java_package "com.sun.management"
    ∷ java_package "com.sun.media.sound"
    ∷ java_package "com.sun.naming.internal"
    ∷ java_package "com.sun.net.httpserver"
    ∷ java_package "com.sun.nio.file"
    ∷ java_package "com.sun.nio.sctp"
    ∷ java_package "com.sun.org.apache.bcel.internal"
    ∷ java_package "com.sun.org.apache.xalan.internal.extensions"
    ∷ java_package "com.sun.org.apache.xalan.internal.lib"
    ∷ java_package "com.sun.org.apache.xalan.internal.res"
    ∷ java_package "com.sun.org.apache.xalan.internal.templates"
    ∷ java_package "com.sun.org.apache.xalan.internal.utils"
    ∷ java_package "com.sun.org.apache.xalan.internal.xsltc"
    ∷ java_package "com.sun.org.apache.xerces.internal.dom"
    ∷ java_package "com.sun.org.apache.xerces.internal.impl"
    ∷ java_package "com.sun.org.apache.xerces.internal.jaxp"
    ∷ java_package "com.sun.org.apache.xerces.internal.parsers"
    ∷ java_package "com.sun.org.apache.xerces.internal.util"
    ∷ java_package "com.sun.org.apache.xerces.internal.utils"
    ∷ java_package "com.sun.org.apache.xerces.internal.xinclude"
    ∷ java_package "com.sun.org.apache.xerces.internal.xni"
    ∷ java_package "com.sun.org.apache.xerces.internal.xpointer"
    ∷ java_package "com.sun.org.apache.xerces.internal.xs"
    ∷ java_package "com.sun.org.apache.xml.internal.dtm"
    ∷ java_package "com.sun.org.apache.xml.internal.res"
    ∷ java_package "com.sun.org.apache.xml.internal.security"
    ∷ java_package "com.sun.org.apache.xml.internal.serialize"
    ∷ java_package "com.sun.org.apache.xml.internal.serializer"
    ∷ java_package "com.sun.org.apache.xml.internal.utils"
    ∷ java_package "com.sun.org.apache.xpath.internal"
    ∷ java_package "com.sun.org.slf4j.internal"
    ∷ java_package "com.sun.rowset"
    ∷ java_package "com.sun.security.auth"
    ∷ java_package "com.sun.security.jgss"
    ∷ java_package "com.sun.security.ntlm"
    ∷ java_package "com.sun.security.sasl"
    ∷ java_package "com.sun.source.doctree"
    ∷ java_package "com.sun.source.tree"
    ∷ java_package "com.sun.source.util"
    ∷ java_package "com.sun.swing.internal.plaf.basic.resources"
    ∷ java_package "com.sun.swing.internal.plaf.metal.resources"
    ∷ java_package "com.sun.swing.internal.plaf.synth.resources"
    ∷ java_package "com.sun.tools.attach"
    ∷ java_package "com.sun.tools.classfile"
    ∷ java_package "com.sun.tools.doclint"
    ∷ java_package "com.sun.tools.example.debug.expr"
    ∷ java_package "com.sun.tools.example.debug.tty"
    ∷ java_package "com.sun.tools.javac"
    ∷ java_package "com.sun.tools.javap"
    ∷ java_package "com.sun.tools.jconsole"
    ∷ java_package "com.sun.tools.jdeprscan"
    ∷ java_package "com.sun.tools.jdeps"
    ∷ java_package "com.sun.tools.jdi"
    ∷ java_package "com.sun.tools.script.shell"
    ∷ java_package "com.sun.tools.sjavac"
    ∷ java_package "com.sun.xml.internal.stream"
    ∷ java_package "java"
    ∷ java_package "javax.accessibility"
    ∷ java_package "javax.annotation.processing"
    ∷ java_package "javax.annotation.security"
    ∷ java_package "javax.crypto"
    ∷ java_package "javax.imageio"
    ∷ java_package "javax.lang.model"
    ∷ java_package "javax.management"
    ∷ java_package "javax.naming"
    ∷ java_package "javax.net"
    ∷ java_package "javax.print"
    ∷ java_package "javax.rmi.ssl"
    ∷ java_package "javax.security"
    ∷ java_package "javax.script"
    ∷ java_package "javax.smartcardio"
    ∷ java_package "javax.sound"
    ∷ java_package "javax.sql"
    ∷ java_package "javax.swing"
    ∷ java_package "javax.tools"
    ∷ java_package "javax.transaction.xa"
    ∷ java_package "javax.xml"
    ∷ java_package "jdk"
    ∷ java_package "netscape.javascript"
    ∷ java_package "org.ietf.jgss"
    ∷ java_package "org.jcp.xml.dsig.internal"
    ∷ java_package "org.w3c.dom"
    ∷ java_package "org.xml.sax"
    ∷ java_package "sun"
    ∷ []
